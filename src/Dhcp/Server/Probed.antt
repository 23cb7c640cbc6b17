-- ===== src/Dhcp/Server/Probed.antt =====
-- Which addresses internal/dhcpd/server.go offers after a probe.
use kydns_server.Prelude.{
  ℕ, ◌+◌, ◌≡◌, ◌≢◌, inl, inr, refl, sym, ap, ◌∙◌, subst, String, Bool, true, false, Option, none,
  some, nat_eq, string_eq, lookup, lookup-insert, lookup-delete, arith, Option-cases,
}
use kydns_server.Text.{bytes_eq}
use kydns_server.Net.{Addr, addr_eq, invalid}
use kydns_server.Dhcp.Alloc.{
  Allocator, Lease, Request, allocate, apply_rules, with_name, reservation_rule, later_rules,
  held_by_another, offer_request, release, quarantine_ip, quarantined, quarantine_for, free, commit,
}
use kydns_server.Dhcp.Alloc.Safety.{Grant-unprotected}
use kydns_server.Dhcp.Alloc.Invariant.{IsConsistent}
use kydns_server.Dhcp.Alloc.Commit.{lookup-commit_mac, commit_reply, committed_lease_key}
use kydns_server.Dhcp.Alloc.Rules.{
  Outcome, commits, promises, keeps, refuses, Grant, reserved, renewed, unclaimed,
  apply_rules-Outcome, later_rules-Outcome,
}
use kydns_server.Dhcp.Server.{
  offer_hold, Packet, Server, World, requested_of, offer_again, offer_address,
}

module _ (a : Allocator) (r : Request) (c : IsConsistent a) where
  Grant-unheld :
      (ip : Addr) → r.tentative ≡ true → Grant a r ip → held_by_another a ip r.mac r.now ≡ false
  unfolding held_by_another free
  Grant-unheld ip t (reserved e p q s) = q t
  Grant-unheld ip t (renewed l e at u) = ground (arith, c.forward r.mac l e)
  Grant-unheld ip t (unclaimed f k) = ground arith

  -- A new address is not the one reserved to the client.
  later-unreserved :
      (out : Allocator × Option (Lease × Bool)) (l : Lease)
      → r.tentative ≡ true
      → reservation_rule a r ≡ none
      → Outcome a r out
      → out.1 ≡ some (l, true)
      → lookup r.mac a.reserved ≢ some l.ip
  unfolding reservation_rule
  later-unreserved out l t none_there (commits ip f e g) h k =
      let free_there = Grant-unheld ip t g in
      let spared = Grant-unprotected a r ip g in
      ground (arith, commit_reply a r ip f, committed_lease_key a r ip)
  later-unreserved out l t none_there (promises k e t' q p live) h z = absurd (ground arith)
  later-unreserved out l t none_there (keeps k e t' q p) h z = absurd (ground arith)
  later-unreserved out l t none_there (refuses e k) h z = absurd (ground arith)

reservation_rule-fresh :
    (a : Allocator) (r : Request) (out : Allocator × Option (Lease × Bool)) (l : Lease)
    → reservation_rule a r ≡ some out
    → out.1 ≢ some (l, true)
unfolding reservation_rule commit
reservation_rule-fresh a r out l h k = ground arith

-- What the first offer leaves when its address is new: the client holds it, and the reservations are
-- the same.
abbrev Holds : Allocator → Allocator → String → Addr → Type 0
Holds a b mac ip =
    ((k : Lease) × (lookup mac b.by_mac ≡ some k) × (k.ip ≡ ip)) × (b.reserved ≡ a.reserved)

Outcome-Holds :
    (a : Allocator) (r : Request) (out : Allocator × Option (Lease × Bool)) (l : Lease)
    → Outcome a r out
    → out.1 ≡ some (l, true)
    → Holds a out.0 r.mac l.ip
unfolding commit
Outcome-Holds a r out l (commits ip f e g) h = (
  (l, ground (arith, lookup-commit_mac a r ip f r.mac, commit_reply a r ip f), refl),
  ap (λ (o : Allocator × Option (Lease × Bool)). o.0.reserved) e,
)
Outcome-Holds a r out l (promises k e t q p live) h = absurd (ground arith)
Outcome-Holds a r out l (keeps k e t q p) h = absurd (ground arith)
Outcome-Holds a r out l (refuses e k) h = absurd (ground arith)

-- A client without a lease is not given a quarantined address that is not reserved to it.
Outcome-avoids :
    (a : Allocator) (r : Request) (out : Allocator × Option (Lease × Bool)) (l : Lease)
    (fresh : Bool) (ip : Addr)
    → lookup r.mac a.by_mac ≡ none
    → lookup r.mac a.reserved ≢ some ip
    → quarantined a ip r.now ≡ true
    → Outcome a r out
    → out.1 ≡ some (l, fresh)
    → l.ip ≢ ip
unfolding free
Outcome-avoids a r out l fresh ip gone other q (commits at f e (reserved known p t s)) h same =
    ground (arith, commit_reply a r at f, committed_lease_key a r at)
Outcome-avoids a r out l fresh ip gone other q (commits at f e (renewed k known p u)) h same =
    ground arith
Outcome-avoids a r out l fresh ip gone other q (commits at f e (unclaimed clear k)) h same =
    ground (arith, commit_reply a r at f, committed_lease_key a r at)
Outcome-avoids a r out l fresh ip gone other q (promises k e t known p live) h same = ground arith
Outcome-avoids a r out l fresh ip gone other q (keeps k e t known p) h same = ground arith
Outcome-avoids a r out l fresh ip gone other q (refuses e k) h same = ground arith

abbrev offer_at : String → Addr → ℕ → Request
offer_at mac requested now = offer_request mac requested offer_hold now

with_name-tentative : (a : Allocator) (r : Request) → (with_name a r).tentative ≡ r.tentative
unfolding with_name
with_name-tentative a r = refl

allocate-unreserved :
    (a : Allocator) (mac : String) (requested : Addr) (now : ℕ) (l : Lease)
    → IsConsistent a
    → (allocate a (offer_at mac requested now)).1 ≡ some (l, true)
    → lookup mac a.reserved ≢ some l.ip
unfolding allocate apply_rules with_name
allocate-unreserved a mac requested now l c h =
    let r = with_name a (offer_at mac requested now) in
    elim (Option-cases (reservation_rule a r)) [
      | inr (out, e) ↦ absurd (reservation_rule-fresh a r out l e (ground arith))
      | inl e ↦
          later-unreserved a r c (later_rules a r) l
            (with_name-tentative a (offer_at mac requested now)) e (later_rules-Outcome a r)
            (ground arith)
    ]

allocate-Holds :
    (a : Allocator) (mac : String) (requested : Addr) (now : ℕ) (l : Lease)
    → (allocate a (offer_at mac requested now)).1 ≡ some (l, true)
    → Holds a (allocate a (offer_at mac requested now)).0 mac l.ip
unfolding allocate with_name
allocate-Holds a mac requested now l =
    let r = with_name a (offer_at mac requested now) in
    Outcome-Holds a r (apply_rules a r) l (apply_rules-Outcome a r)

allocate-avoids :
    (a : Allocator) (mac : String) (now : ℕ) (l : Lease) (fresh : Bool) (ip : Addr)
    → lookup mac a.by_mac ≡ none
    → lookup mac a.reserved ≢ some ip
    → quarantined a ip now ≡ true
    → (allocate a (offer_at mac invalid now)).1 ≡ some (l, fresh)
    → l.ip ≢ ip
unfolding allocate with_name
allocate-avoids a mac now l fresh ip gone other q =
    let r = with_name a (offer_at mac invalid now) in
    Outcome-avoids a r (apply_rules a r) l fresh ip gone other q (apply_rules-Outcome a r)

-- The allocator after the address is quarantined and released.
abbrev without_ip : Allocator → String → Addr → ℕ → Allocator
without_ip a mac ip now = (release (quarantine_ip a ip now) mac ip).0

without_ip-gone :
    (a b : Allocator) (mac : String) (ip : Addr) (now : ℕ)
    → Holds a b mac ip
    → (lookup mac (without_ip b mac ip now).by_mac ≡ none)
      × (lookup mac (without_ip b mac ip now).reserved ≡ lookup mac a.reserved)
      × (quarantined (without_ip b mac ip now) ip now ≡ true)
unfolding release quarantine_ip quarantined
without_ip-gone a b mac ip now ((k, known, at), same) = (
  ground (arith, lookup-delete mac mac b.by_mac),
  ground (arith, same),
  ground (arith, lookup-insert ip ip (now + quarantine_for) b.quarantine),
)

-- An address that is new to the client and answers the probe is not offered: the client gets another
-- one, or none.
pub offer_address-avoids :
    (w : World) (s : Server) (mac : String) (m : Packet) (k l : Lease)
    → IsConsistent s.alloc
    → (allocate s.alloc (offer_request mac (requested_of m) offer_hold w.now)).1 ≡ some (k, true)
    → w.in_use k.ip ≡ true
    → (offer_address w s mac m).1 ≡ some l
    → l.ip ≢ k.ip
unfolding offer_address offer_again
offer_address-avoids w s mac m k l c first taken h =
    let a = s.alloc in
    let b = (allocate a (offer_at mac (requested_of m) w.now)).0 in
    let other = allocate-unreserved a mac (requested_of m) w.now k c first in
    let (gone, same, q) =
      without_ip-gone a b mac k.ip w.later (allocate-Holds a mac (requested_of m) w.now k first) in
    let again = without_ip b mac k.ip w.later in
    elim (Option-cases (allocate again (offer_at mac invalid w.later)).1) [
      | inl e ↦ absurd (ground arith)
      | inr ((l', fresh), e) ↦
          let p : l' ≡ l = ground arith in
          subst (λ (x : Lease). x.ip ≢ k.ip) p
            (allocate-avoids again mac w.later l' fresh k.ip gone (λ z. other (sym same ∙ z)) q e)
    ]
