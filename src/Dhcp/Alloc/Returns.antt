-- ===== src/Dhcp/Alloc/Returns.antt =====
-- `Release`, `Decline`, `Load` and `SetReservations` of internal/dhcpd/alloc.go.
use kydns_server.Prelude.{
  ℕ, ◌+◌, ◌<◌, String, ◌≡◌, ◌≢◌, false, true, none, some, arith, ◌==◌, string_eq, lookup, delete,
  lookup-insert, lookup-delete, string_discrete, ap, ◌∙◌, Option-cases, Bool-cases, inl, inr, ◌⊎◌,
}
use kydns_server.Net.{Addr, addr_eq}
use kydns_server.Dhcp.Alloc.{
  Allocator, Lease, release, decline, in_range, quarantine_for, quarantined, usable, free,
}
use kydns_server.Dhcp.Alloc.Invariant.{IsConsistent}

-- The binding of `mac` and `ip` is gone, and every other one is as it was.
pub record IsUnbound (a b : Allocator) (mac : String) (ip : Addr) : Type 0 where
  pub client_gone : lookup mac b.by_mac ≡ none
  pub address_gone : lookup ip b.by_ip ≡ none
  pub others : (m : String) → m ≢ mac → lookup m b.by_mac ≡ lookup m a.by_mac
  pub other_addresses : (q : Addr) → q ≢ ip → lookup q b.by_ip ≡ lookup q a.by_ip

IsUnbound-of :
    (a b : Allocator) (mac : String) (ip : Addr)
    → b.by_mac ≡ delete mac a.by_mac
    → b.by_ip ≡ delete ip a.by_ip
    → IsUnbound a b mac ip
IsUnbound-of a b mac ip e f = record {
  client_gone = rw e (ground (arith, lookup-delete mac mac a.by_mac));
  address_gone = rw f (ground (arith, lookup-delete ip ip a.by_ip));
  others = λ m n. rw e (ground (arith, lookup-delete m mac a.by_mac));
  other_addresses = λ q n. rw f (ground (arith, lookup-delete q ip a.by_ip));
}

-- Taking one binding out of both maps leaves them describing the same bindings.
IsUnbound-IsConsistent :
    (a b : Allocator) (mac : String) (ip : Addr)
    → IsConsistent a
    → lookup ip a.by_ip ≡ some mac
    → IsUnbound a b mac ip
    → IsConsistent b
IsUnbound-IsConsistent a b mac ip c bound u = record {
  forward = λ m l h.
      let old : lookup m a.by_mac ≡ some l = ground (arith, u.others m, u.client_gone) in
      ground (arith, u.others m, u.client_gone, u.other_addresses l.ip, c.forward m l old);
  backward = λ q m h.
      let old : lookup q a.by_ip ≡ some m = ground (arith, u.other_addresses q, u.address_gone) in
      let (l, e, at) = c.backward q m old in
      (l, ground (arith, u.others m, u.address_gone, c.backward ip mac bound), at);
}

module _ (a : Allocator) (mac : String) (ip : Addr) where
  release_hit :
      (l : Lease)
      → lookup mac a.by_mac ≡ some l
      → l.ip ≡ ip
      → ((release a mac ip).1 ≡ true) × IsUnbound a (release a mac ip).0 mac ip
  unfolding release
  release_hit l e p =
      (ground arith, IsUnbound-of a (release a mac ip).0 mac ip (ground arith) (ground arith))

  -- RELEASE drops a lease exactly when client and address name one binding; otherwise it changes
  -- nothing.
  pub release_exact :
      (((release a mac ip).1 ≡ true)
        × ((l : Lease) × (lookup mac a.by_mac ≡ some l) × (l.ip ≡ ip))
        × IsUnbound a (release a mac ip).0 mac ip)
      ⊎ (((release a mac ip).1 ≡ false)
          × ((l : Lease) → lookup mac a.by_mac ≡ some l → l.ip ≢ ip)
          × ((release a mac ip).0 ≡ a))
  unfolding release
  release_exact = elim (Option-cases (lookup mac a.by_mac)) [
    | inl e ↦ inr (ground arith, λ l h. absurd (ground arith), ground arith)
    | inr (l, e) ↦ elim (Bool-cases (l.ip == ip)) [
      | inl p ↦
          let q : l.ip ≡ ip = ground arith in
          inl ((release_hit l e q).0, (l, e, q), (release_hit l e q).1)
      | inr p ↦ inr (ground arith, λ k h. ground arith, ground arith)
    ]
  ]

  pub release-IsConsistent : IsConsistent a → IsConsistent (release a mac ip).0
  release-IsConsistent c = elim release_exact [
    | inl (_, (l, e, at), u) ↦
        IsUnbound-IsConsistent a (release a mac ip).0 mac ip c (ground (arith, c.forward mac l e)) u
    | inr (_, _, same) ↦ rw same c
  ]

module _ (a : Allocator) (mac : String) (ip : Addr) (now : ℕ) where
  decline_hit :
      mac ≢ ""
      → lookup ip a.by_ip ≡ some mac
      → ((decline a mac ip now).1 ≡ true) × IsUnbound a (decline a mac ip now).0 mac ip
  unfolding decline
  decline_hit named e =
      (ground arith, IsUnbound-of a (decline a mac ip now).0 mac ip (ground arith) (ground arith))

  decline_quarantines :
      (m : String) (later : ℕ)
      → (decline a mac ip now).1 ≡ true
      → later < now + quarantine_for
      → free (decline a mac ip now).0 ip m later ≡ false
  unfolding decline free usable in_range quarantined
  decline_quarantines m later done soon =
      ground (arith, lookup-insert ip ip (now + quarantine_for) a.quarantine)

  -- DECLINE is honoured exactly from the client that holds the address. Then the binding is dropped
  -- and for ten minutes the address is free to nobody; otherwise nothing changes.
  pub decline_exact :
      (((decline a mac ip now).1 ≡ true)
        × (mac ≢ "")
        × (lookup ip a.by_ip ≡ some mac)
        × IsUnbound a (decline a mac ip now).0 mac ip
        × ((m : String) (later : ℕ)
            → later < now + quarantine_for
            → free (decline a mac ip now).0 ip m later ≡ false))
      ⊎ (((decline a mac ip now).1 ≡ false)
          × ¬ ((mac ≢ "") × (lookup ip a.by_ip ≡ some mac))
          × ((decline a mac ip now).0 ≡ a))
  unfolding decline
  decline_exact = elim (string_discrete mac "") [
    | yes empty ↦ inr (ground arith, λ both. both.0 empty, ground arith)
    | no named ↦ elim (Option-cases (lookup ip a.by_ip)) [
      | inl e ↦ inr (ground arith, λ both. ground arith, ground arith)
      | inr (holder, e) ↦ elim (string_discrete holder mac) [
        | yes p ↦
            let bound : lookup ip a.by_ip ≡ some mac = e ∙ ap some p in
            let (done, u) = decline_hit named bound in
            inl (done, named, bound, u, λ m later soon. decline_quarantines m later done soon)
        | no n ↦ inr (ground arith, λ both. ground arith, ground arith)
      ]
    ]
  ]

  pub decline-IsConsistent : IsConsistent a → IsConsistent (decline a mac ip now).0
  decline-IsConsistent c = elim decline_exact [
    | inl (_, _, bound, u, _) ↦ IsUnbound-IsConsistent a (decline a mac ip now).0 mac ip c bound u
    | inr (_, _, same) ↦ rw same c
  ]
