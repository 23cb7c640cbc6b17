-- ===== src/Dhcp/Alloc/Own.antt =====
-- What `Allocate` and `Offer` of internal/dhcpd/alloc.go do to the client's own lease, and when
-- they refuse.
use kydns_server.Prelude.{
  ℕ, ◌^◌, ◌<◌, ◌≤◌, String, ◌≡◌, refl, Bool, false, true, none, some, arith, string_eq, lookup,
  Bool-cases, inl, inr, ap, ◌∙◌, sym, subst,
}
use kydns_server.Net.{Addr, addr_eq, v4, u32_of}
use kydns_server.Dhcp.Alloc.{
  Allocator, Request, Lease, Reply, commit, committed_lease, protected, free, reservation_rule,
  apply_rules, allocate, with_name, scan, scan_fuel,
}
use kydns_server.Dhcp.Alloc.Commit.{
  lookup-commit_mac, committed_lease_key, committed_found, commit_reply,
}
use kydns_server.Dhcp.Alloc.Scan.{scan_complete}
use kydns_server.Dhcp.Alloc.Rules.{
  Outcome, commits, promises, keeps, refuses, Grant, reserved, renewed, unclaimed,
  apply_rules-Outcome,
}

-- The lease `l` is not weakened: it is there, on the same address, under the same name, and ends
-- no sooner.
pub record IsKept (a : Allocator) (m : String) (l : Lease) : Type 0 where
  pub now_held : Lease
  pub found : lookup m a.by_mac ≡ some now_held
  pub same_ip : now_held.ip ≡ l.ip
  pub same_name : now_held.hostname ≡ l.hostname
  pub no_sooner : l.expires ≤ now_held.expires

-- A client's own live lease, on an address that may be handed out, at a DISCOVER.
pub record IsOwnLive (a : Allocator) (r : Request) (l : Lease) : Type 0 where
  pub discover : r.tentative ≡ true
  pub bound : lookup r.mac a.by_mac ≡ some l
  pub live : r.now < l.expires
  pub allowed : protected a l.ip ≡ false

module _ (a : Allocator) (r : Request) (l : Lease) (o : IsOwnLive a r l) where
  committed_lease_keeps :
      ((committed_lease a r l.ip).hostname ≡ l.hostname)
      × (l.expires ≤ (committed_lease a r l.ip).expires)
  unfolding committed_lease
  committed_lease_keeps = ground arith

  Grant-same : (ip : Addr) → Grant a r ip → ip ≡ l.ip
  Grant-same ip (reserved e p q s) = ground (arith, s l)
  Grant-same ip (renewed k e at u) = ground arith
  Grant-same ip (unclaimed f k) = absurd (ground (arith, k l))

  commit-IsKept : (fresh : Bool) → IsKept (commit a r l.ip fresh).0 r.mac l
  commit-IsKept fresh = record {
    now_held = committed_lease a r l.ip;
    found = ground (arith, lookup-commit_mac a r l.ip fresh r.mac);
    same_ip = (committed_lease_key a r l.ip).1;
    same_name = committed_lease_keeps.0;
    no_sooner = committed_lease_keeps.1;
  }

  unchanged-IsKept : IsKept a r.mac l
  unchanged-IsKept = record {
    now_held = l;
    found = o.bound;
    same_ip = refl;
    same_name = refl;
    no_sooner = omega arith;
  }

  Outcome-IsKept : (out : Allocator × Reply) → Outcome a r out → IsKept out.0 r.mac l
  Outcome-IsKept out (commits ip f e g) =
      rw e
        (subst (λ q. IsKept (commit a r q f).0 r.mac l) (sym (Grant-same ip g)) (commit-IsKept f))
  Outcome-IsKept out (promises k e t q p live) = rw e unchanged-IsKept
  Outcome-IsKept out (keeps k e t q p) = rw e unchanged-IsKept
  Outcome-IsKept out (refuses e n) = rw e unchanged-IsKept

-- An OFFER never weakens a live lease that the client holds on an address that may be handed out.
pub offer_keeps_own :
    (a : Allocator) (r : Request) (l : Lease) → IsOwnLive a r l → IsKept (allocate a r).0 r.mac l
unfolding allocate with_name
offer_keeps_own a r l o =
    Outcome-IsKept a (with_name a r) l
      (record { discover = o.discover; bound = o.bound; live = o.live; allowed = o.allowed }) _
      (apply_rules-Outcome a (with_name a r))

reservation_taken :
    (a : Allocator) (r : Request) (ip : Addr)
    → r.tentative ≡ false
    → lookup r.mac a.reserved ≡ some ip
    → protected a ip ≡ false
    → apply_rules a r ≡ commit a r ip false
unfolding apply_rules reservation_rule
reservation_taken a r ip t e p = ground arith

-- A REQUEST takes the address reserved to its client, whatever is in the way, unless it is our own
-- or the gateway's.
pub request_takes_reservation :
    (a : Allocator) (r : Request) (ip : Addr)
    → r.tentative ≡ false
    → lookup r.mac a.reserved ≡ some ip
    → protected a ip ≡ false
    → (l : Lease) × ((allocate a r).1 ≡ some (l, false))
      × (lookup r.mac (allocate a r).0.by_mac ≡ some l)
      × (l.ip ≡ ip)
unfolding allocate with_name
request_takes_reservation a r ip t e p =
    let w = with_name a r in
    let taken = reservation_taken a w ip t e p in
    (
      committed_lease a w ip,
      ap (λ (out : Allocator × Reply). out.1) taken ∙ commit_reply a w ip false,
      ap (λ (out : Allocator × Reply). lookup r.mac out.0.by_mac) taken ∙ committed_found a w ip,
      (committed_lease_key a w ip).1,
    )

Outcome-refused :
    (a : Allocator) (r : Request) (out : Allocator × Reply)
    → Outcome a r out
    → out.1 ≡ none
    → (out.0 ≡ a) × (scan a r.mac r.now (scan_fuel a) a.cfg.start ≡ none)
Outcome-refused a r out (commits ip f e g) h = absurd (ground (arith, commit_reply a r ip f))
Outcome-refused a r out (promises k e t q p live) h = absurd (ground arith)
Outcome-refused a r out (keeps k e t q p) h = absurd (ground arith)
Outcome-refused a r out (refuses e n) h = (ap (λ (o : Allocator × Reply). o.0) e, n)

-- A refusal changes nothing, and it means that no address of the range is free to the client. The
-- end of the range is a 32-bit number.
pub refused-exhausted :
    (a : Allocator) (r : Request)
    → u32_of a.cfg.end < 2 ^ 32
    → (allocate a r).1 ≡ none
    → ((allocate a r).0 ≡ a) × ((m : ℕ) → free a (v4 m) r.mac r.now ≡ false)
unfolding allocate with_name
refused-exhausted a r fits h =
    let w = with_name a r in
    let (same, nothing) = Outcome-refused a w _ (apply_rules-Outcome a w) h in
    (
      same,
      λ m. elim (Bool-cases (free a (v4 m) r.mac r.now)) [
        | inl f ↦ absurd (ground (arith, scan_complete a r.mac r.now m fits f))
        | inr f ↦ f
      ],
    )
