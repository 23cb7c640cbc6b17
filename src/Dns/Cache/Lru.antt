-- ===== src/Dns/Cache/Lru.antt =====
-- internal/dnsserver/cache.go against a least-recently-used list.
use mathlib.Core.Path.{ap₂}
use kydns_server.Prelude.{
  ℕ, zero, suc, ◌-◌, ◌≤◌, ◌≡◌, inl, inr, refl, sym, ap, ◌∙◌, subst, ◌∷◌, nat_eq, length, arith,
  Bool-cases, ltb,
}
use kydns_server.Dns.Cache.{
  key_eq, Entry, Element, Cache, remove_element, remove_back, shrink, evict, remove_key, push_front,
  store_entry,
}
use kydns_server.Dns.Cache.Removal.{IsCache, Removed, remove_element-IsCache, remove_key-Removed}
use kydns_server.Dns.Cache.Elements
use kydns_server.Dns.Cache.Elements.{In, IsIndexed, find-In}
use kydns_server.Dns.Cache.Keys.{
  contents, drop_key, take, LacksKey, drop_key-LacksKey, drop_key-back, back_of_length,
  length-contents, take-take, take_of_length-le, length-take-le,
}

-- One round of eviction drops the last entry.
remove_back-IsCache :
    (c : Cache) (n : ℕ)
    → IsCache c
    → length c.order ≡ suc n
    → IsCache (remove_back c)
      × (contents (remove_back c).order ≡ take n (contents c.order))
      × ((remove_back c).max_entries ≡ c.max_entries)
unfolding remove_back
remove_back-IsCache c n v h =
    let (last, e, here) = back_of_length n c.order h in
    let (valid, left) = remove_element-IsCache c v last here in
    rw (e, remove_back)
      (valid, left ∙ drop_key-back n c.order {last = last} v.distinct h e, removed_max c last)
  where
    removed_max : (d : Cache) (el : Element) → (remove_element d el).max_entries ≡ d.max_entries
    removed_max d el = unfold remove_element in refl

kept :
    (c : Cache)
    → length c.order ≤ c.max_entries
    → contents c.order ≡ take c.max_entries (contents c.order)
kept c h =
    sym
      (take_of_length-le c.max_entries (contents c.order) (omega (arith, length-contents c.order)))

-- Enough rounds leave the newest entries, as many as may stay.
shrink-take :
    (fuel : ℕ) (c : Cache)
    → IsCache c
    → length c.order ≤ fuel
    → IsCache (shrink fuel c)
      × (contents (shrink fuel c).order ≡ take c.max_entries (contents c.order))
unfolding shrink
shrink-take zero c v h = (v, kept c (omega arith))
shrink-take (suc fuel) c v h = elim (Bool-cases (ltb c.max_entries (length c.order))) [
  | inr fits ↦ rw (fits, shrink) (v, kept c (ground arith))
  | inl over ↦
      let n = length c.order - 1 in
      let below : c.max_entries ≤ n = ground arith in
      let (valid, left, same) = remove_back-IsCache c n v (ground arith) in
      let shorter : length (remove_back c).order ≤ fuel = omega (
        arith,
        length-contents (remove_back c).order,
        ap length left,
        length-take-le n (contents c.order),
      ) in
      let (result, newest) = shrink-take fuel (remove_back c) valid shorter in
      rw (over, shrink)
        (
          result,
          newest
              ∙ ap (λ (m : ℕ). take m (contents (remove_back c).order)) same
              ∙ ap (take c.max_entries) left
              ∙ take-take c.max_entries n (contents c.order) below,
        )
]

pub evict-take :
    (c : Cache)
    → IsCache c
    → IsCache (evict c) × (contents (evict c).order ≡ take c.max_entries (contents c.order))
unfolding evict
evict-take c v = shrink-take (length c.order) c v (omega arith)

push_front-IsCache :
    (c d : Cache) (e : Entry)
    → Removed c d e.key
    → IsCache (push_front d e)
      × (contents (push_front d e).order ≡ e ∷ drop_key e.key (contents c.order))
      × ((push_front d e).max_entries ≡ c.max_entries)
unfolding push_front
push_front-IsCache c d e r = (
  record {
    index = Elements.push-IsIndexed d.entries d.order d.next_id r.valid.index e r.gone;
    distinct = (
      subst (LacksKey e.key) (sym r.rest) (drop_key-LacksKey e.key (contents c.order)),
      r.valid.distinct,
    );
  },
  ap (◌∷◌ e) r.rest,
  r.same_max,
)

-- Storing an entry keeps the map an index of the list, and leaves the list that a
-- least-recently-used cache has: the entry first, its key nowhere else, the rest in order, and of
-- all that the newest `max_entries`.
pub store_entry-take :
    (c : Cache) (e : Entry)
    → IsCache c
    → IsCache (store_entry c e)
      × (contents (store_entry c e).order
          ≡ take c.max_entries (e ∷ drop_key e.key (contents c.order)))
unfolding store_entry
store_entry-take c e v =
    let r = remove_key-Removed c e.key v in
    let (valid, front, same) = push_front-IsCache c (remove_key c e.key) e r in
    let (result, newest) = evict-take (push_front (remove_key c e.key) e) valid in
    (result, newest ∙ ap₂ take same front)
