-- ===== src/Dhcp/Alloc/Names.antt =====
-- The hostnames of internal/dhcpd/alloc.go: the first claim of a name wins for the life of a lease.
use kydns_server.Prelude.{
  List, lookup-delete, ℕ, ◌<◌, ◌≤◌, String, ◌≡◌, ◌≢◌, Bool, false, some, arith, [], ◌∷◌, string_eq,
  lookup, Map, string_discrete, subst, sym, Option-cases, inl, inr,
}
use kydns_server.Net.{Addr, addr_eq}
use kydns_server.Dhcp.Alloc.{
  Allocator, Request, Lease, Reply, commit, committed_lease, claims_name, name_taken, allocate,
  with_name, release, decline, quarantine_ip, add_reservations, set_reservations,
}
use kydns_server.Dhcp.Alloc.History.{
  Call, allocates, releases, declines, quarantines, reserves, step, run, step-IsConsistent,
}
use kydns_server.Dhcp.Alloc.Commit.{lookup-commit_mac}
use kydns_server.Dhcp.Alloc.Invariant.{IsConsistent}
use kydns_server.Dhcp.Alloc.Rules.{Outcome, commits, promises, keeps, refuses, apply_rules-Outcome}

-- No two clients hold live leases under one name.
abbrev pub HasDistinctNames : Allocator → ℕ → Type 0
HasDistinctNames a now =
    (m n : String) (k l : Lease)
    → lookup m a.by_mac ≡ some k
    → lookup n a.by_mac ≡ some l
    → now < k.expires
    → now < l.expires
    → k.hostname ≡ l.hostname
    → k.hostname ≢ ""
    → m ≡ n

claims_name-lookup :
    (name mac : String) (now : ℕ) (leases : Map String Lease) (m : String) (l : Lease)
    → claims_name name mac now leases ≡ false
    → lookup m leases ≡ some l
    → l.mac ≢ mac
    → now < l.expires
    → l.hostname ≢ name
unfolding claims_name lookup
claims_name-lookup name mac now [] m l free h other live = absurd (ground arith)
claims_name-lookup name mac now ((n, k) ∷ rest) m l free h other live =
    ground (arith, claims_name-lookup name mac now rest m l)

with_name_free :
    (a : Allocator) (r : Request) → name_taken a (with_name a r).hostname r.mac r.now ≡ false
unfolding with_name name_taken
with_name_free a r = ground arith

module _ (a : Allocator) (r : Request) (c : IsConsistent a) (d : HasDistinctNames a r.now)
    (untaken : name_taken a r.hostname r.mac r.now ≡ false) where
  committed_name :
      (ip : Addr) (m : String) (l : Lease)
      → lookup m a.by_mac ≡ some l
      → m ≢ r.mac
      → r.now < l.expires
      → (committed_lease a r ip).hostname ≡ l.hostname
      → l.hostname ≡ ""
  unfolding committed_lease name_taken
  committed_name ip m l h other live same = elim (Option-cases (lookup r.mac a.by_mac)) [
    | inl e ↦
        ground (arith, claims_name-lookup r.hostname r.mac r.now a.by_mac m l, c.forward m l h)
    | inr (prev, e) ↦ elim (string_discrete l.hostname "") [
      | yes p ↦ p
      | no named ↦ absurd (
          ground (
            arith,
            claims_name-lookup r.hostname r.mac r.now a.by_mac m l,
            c.forward m l h,
            λ (lp : r.now < prev.expires) (s : l.hostname ≡ prev.hostname).
                d m r.mac l prev h e live lp s named,
          ))
    ]
  ]

  commit-HasDistinctNames :
      (ip : Addr) (fresh : Bool) → HasDistinctNames (commit a r ip fresh).0 r.now
  commit-HasDistinctNames ip fresh m n k l hm hn lm ln same named = ground (
    arith,
    lookup-commit_mac a r ip fresh m,
    lookup-commit_mac a r ip fresh n,
    d m n k l,
    committed_name ip m k,
    committed_name ip n l,
  )

  Outcome-HasDistinctNames :
      (out : Allocator × Reply) → Outcome a r out → HasDistinctNames out.0 r.now
  Outcome-HasDistinctNames out (commits ip f e g) =
      subst (λ (o : Allocator × Reply). HasDistinctNames o.0 r.now) (sym e)
        (commit-HasDistinctNames ip f)
  Outcome-HasDistinctNames out (promises k e t q p live) =
      subst (λ (o : Allocator × Reply). HasDistinctNames o.0 r.now) (sym e) d
  Outcome-HasDistinctNames out (keeps k e t q p) =
      subst (λ (o : Allocator × Reply). HasDistinctNames o.0 r.now) (sym e) d
  Outcome-HasDistinctNames out (refuses e n) =
      subst (λ (o : Allocator × Reply). HasDistinctNames o.0 r.now) (sym e) d

allocate-HasDistinctNames :
    (a : Allocator) (r : Request)
    → IsConsistent a
    → HasDistinctNames a r.now
    → HasDistinctNames (allocate a r).0 r.now
unfolding allocate with_name
allocate-HasDistinctNames a r c d =
    Outcome-HasDistinctNames a (with_name a r) c d (with_name_free a r) _
      (apply_rules-Outcome a (with_name a r))

-- Time only ends leases, so distinct names stay distinct.
HasDistinctNames-later :
    (a : Allocator) (now later : ℕ)
    → now ≤ later
    → HasDistinctNames a now
    → HasDistinctNames a later
HasDistinctNames-later a now later le d m n k l hm hn lm ln same named =
    d m n k l hm hn (omega arith) (omega arith) same named

-- Every lease of the second is one of the first.
abbrev Within : Allocator → Allocator → Type 0
Within a b = (m : String) (l : Lease) → lookup m b.by_mac ≡ some l → lookup m a.by_mac ≡ some l

Within-HasDistinctNames :
    (a b : Allocator) (now : ℕ) → Within a b → HasDistinctNames a now → HasDistinctNames b now
Within-HasDistinctNames a b now w d m n k l hm hn = d m n k l (w m k hm) (w n l hn)

release-Within : (a : Allocator) (mac : String) (ip : Addr) → Within a (release a mac ip).0
unfolding release
release-Within a mac ip m l h = ground (arith, lookup-delete m mac a.by_mac)

decline-Within :
    (a : Allocator) (mac : String) (ip : Addr) (now : ℕ) → Within a (decline a mac ip now).0
unfolding decline
decline-Within a mac ip now m l h = ground (arith, lookup-delete m mac a.by_mac)

add_reservations-Within :
    (r : Map String Addr) (a b : Allocator) → Within a b → Within a (add_reservations r b)
unfolding add_reservations
add_reservations-Within [] a b w = w
add_reservations-Within ((mac, ip) ∷ r) a b w = add_reservations-Within r a _ w

-- When a call that may give a name reads the clock; the others can be at any time.
abbrev pub at_time : ℕ → Call → ℕ
at_time now (allocates r) = r.now
at_time now (releases mac ip) = now
at_time now (declines mac ip _) = now
at_time now (quarantines ip _) = now
at_time now (reserves r) = now

-- The calls read a clock that starts at `now` and does not run backwards.
abbrev pub IsOrdered : ℕ → List Call → Type 0
IsOrdered now [] = Unit {0}
IsOrdered now (c ∷ cs) = (now ≤ at_time now c) × IsOrdered (at_time now c) cs

-- The last reading.
abbrev pub last_time : ℕ → List Call → ℕ
last_time now [] = now
last_time now (c ∷ cs) = last_time (at_time now c) cs

step-HasDistinctNames :
    (a : Allocator) (c : Call) (now : ℕ)
    → IsConsistent a
    → now ≤ at_time now c
    → HasDistinctNames a now
    → HasDistinctNames (step a c) (at_time now c)
unfolding step quarantine_ip set_reservations
step-HasDistinctNames a (allocates r) now v le d =
    allocate-HasDistinctNames a r v (HasDistinctNames-later a now r.now le d)
step-HasDistinctNames a (releases mac ip) now v le d =
    Within-HasDistinctNames a (release a mac ip).0 now (release-Within a mac ip) d
step-HasDistinctNames a (declines mac ip at) now v le d =
    Within-HasDistinctNames a (decline a mac ip at).0 now (decline-Within a mac ip at) d
step-HasDistinctNames a (quarantines ip at) now v le d = d
step-HasDistinctNames a (reserves r) now v le d =
    Within-HasDistinctNames a (set_reservations r a) now
      (add_reservations-Within r a _ (λ m l h. h)) d

-- While the process runs, two clients never hold live leases under one name. From a consistent
-- allocator, such as a boot leaves, in which no two live leases share a name, after any calls of its
-- methods, with whatever hostnames and whatever reservations, none do at the last reading of the
-- clock or later, as long as the clock does not run backwards. Names that a table of leases brings
-- back at a boot are not compared, so that is a condition.
pub run-HasDistinctNames :
    (a : Allocator) (calls : List Call) (now : ℕ)
    → IsConsistent a
    → HasDistinctNames a now
    → IsOrdered now calls
    → (later : ℕ) → last_time now calls ≤ later
    → HasDistinctNames (run a calls) later
unfolding run
run-HasDistinctNames a [] now v d o later le = HasDistinctNames-later a now later le d
run-HasDistinctNames a (c ∷ cs) now v d o later le =
    run-HasDistinctNames (step a c) cs (at_time now c) (step-IsConsistent a c v)
      (step-HasDistinctNames a c now v o.0 d) o.1 later le
