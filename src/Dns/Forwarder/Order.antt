-- ===== src/Dns/Forwarder/Order.antt =====
-- In which order internal/dnsserver/forward.go asks the upstreams.
use kydns_server.Prelude.{
  ℕ, ◌≡◌, ◌⊎◌, inl, inr, refl, ap, none, some, List, [], ◌∷◌, ◌++◌, map, nat_eq, string_eq,
  Option-cases,
}
use kydns_server.Text.{Bytes, bytes_eq, split}
use kydns_server.Dns.Message.{Msg}
use kydns_server.Dns.Forwarder.{
  Upstream, Slot, Exchange, usable, cleared, failed_slot, ok_slot, exchange,
}

module _ (ask : Upstream → Exchange) where
  -- No upstream of the list has a response that counts.
  abbrev pub NoneUsable : List Slot → Type 0
  NoneUsable [] = Unit {0}
  NoneUsable (s ∷ ss) = (usable (ask s.up) ≡ none) × NoneUsable ss

-- The upstreams are asked in their order up to the first whose response counts. Its message is the
-- result, without AD if the upstream is plaintext; those before it have recorded their failures,
-- and those behind it are left alone. Where no response counts there is no result and every
-- upstream has recorded its failure.
pub exchange_first :
    (rcode_name : ℕ → Bytes) (ask : Upstream → Exchange) (now : ℕ) (slots : List Slot)
    → ((before : List Slot) × (s : Slot) × (after : List Slot) × (m : Msg) × (slots
          ≡ before ++ s ∷ after)
        × NoneUsable ask before
        × (usable (ask s.up) ≡ some m)
        × ((exchange rcode_name ask now slots).1 ≡ some (cleared s.up m))
        × ((exchange rcode_name ask now slots).0
            ≡ map (failed_slot rcode_name ask now) before ++ ok_slot rcode_name ask now s ∷ after))
      ⊎ (NoneUsable ask slots
          × ((exchange rcode_name ask now slots).1 ≡ none)
          × ((exchange rcode_name ask now slots).0 ≡ map (failed_slot rcode_name ask now) slots))
unfolding exchange
exchange_first rcode_name ask now [] = inr (tt, refl, refl)
exchange_first rcode_name ask now (s ∷ ss) = elim (Option-cases (usable (ask s.up))) [
  | inr (m, e) ↦ inl ([], s, ss, m, refl, tt, e, rw (e, exchange) refl, rw (e, exchange) refl)
  | inl e ↦ elim (exchange_first rcode_name ask now ss) [
    | inl (before, t, after, m, split, unusable, got, result, slots) ↦ inl (
      s ∷ before,
      t,
      after,
      m,
      ap (◌∷◌ s) split,
      (e, unusable),
      got,
      rw (e, exchange) result,
      rw (e, exchange) (ap (◌∷◌ (failed_slot rcode_name ask now s)) slots),
    )
    | inr (unusable, result, slots) ↦ inr (
      (e, unusable),
      rw (e, exchange) result,
      rw (e, exchange) (ap (◌∷◌ (failed_slot rcode_name ask now s)) slots),
    )
  ]
]
