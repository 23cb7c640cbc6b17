-- ===== src/Dns/Cache/Reads.antt =====
-- What a look-up in internal/dnsserver/cache.go returns, and what it leaves.
use native.Mathlib.Decide.{dec_lt}
use kydns_server.Prelude.{
  ℕ, ◌/◌, ◌%◌, ◌^◌, ◌*◌, zero, suc, ◌+◌, ◌-◌, ◌<◌, ◌≤◌, ◌≡◌, ◌≢◌, ◌⊎◌, inl, inr, refl, sym, ap, ◌∙◌,
  subst, true, false, Option, none, some, List, ◌∷◌, ◌==◌, nat_eq, length, arith, Option-cases,
  Bool-cases, lookup, ltb,
}
use kydns_server.Dns.Cache.{
  Key, key_eq, Entry, Element, Cache, store_entry, put, get, get_element, ttl_for, new_entry,
  age_msg, set_ttls,
}
use kydns_server.Dns.Cache.Removal.{IsCache, remove_element-IsCache, contents_dropped}
use kydns_server.Dns.Cache.Lru.{store_entry-take}
use kydns_server.Dns.Message.{Msg}
use kydns_server.Dns.Cache.Elements
use kydns_server.Dns.Cache.Elements.{In, IsIndexed, find-In}
use kydns_server.Dns.Cache.Keys.{
  contents, drop_key, take, LacksKey, HasDistinctKeys, contents-LacksKey, drop_key-LacksKey,
  drop_key-HasDistinctKeys, length-contents, length-take-le, HasEntry, contents-HasEntry,
  LacksKey-HasEntry,
}

-- What a look-up of `k` at `now` gives and leaves: a miss, an expired entry, a hit.
abbrev pub Looked : Cache → Key → ℕ → Cache × Option Msg → Type 0
Looked c k now out =
    IsCache out.0
    × ((LacksKey k (contents c.order) × (out.1 ≡ none) × (out.0 ≡ c))
        ⊎ ((e : Entry) × (e.key ≡ k)
            × HasEntry e (contents c.order)
            × (((e.expires ≤ now)
                  × (out.1 ≡ none)
                  × (contents out.0.order ≡ drop_key k (contents c.order)))
                ⊎ ((now < e.expires)
                    × (out.1 ≡ some (age_msg ((now - e.stored) / 10 ^ 9 % 2 ^ 32) e.msg))
                    × (contents out.0.order ≡ e ∷ drop_key k (contents c.order))))))

module _ (c : Cache) (v : IsCache c) (el : Element) (here : In el c.order) (now : ℕ) where
  dropped-Looked : (now < el.entry.expires → ⊥) → Looked c el.entry.key now (get_element c el now)
  unfolding get_element
  dropped-Looked old =
      let listed = contents-HasEntry el c.order here in
      let late : ltb now el.entry.expires ≡ false = ground arith in
      let (valid, left) = remove_element-IsCache c v el here in
      rw (late, get_element) (valid, inr (el.entry, refl, listed, inl (omega arith, refl, left)))

  touched-Looked : now < el.entry.expires → Looked c el.entry.key now (get_element c el now)
  unfolding get_element
  touched-Looked fresh =
      let listed = contents-HasEntry el c.order here in
      let soon : ltb now el.entry.expires ≡ true = ground arith in
      let left = contents_dropped c v el here in
      rw (soon, get_element)
        (
          record {
            index = Elements.touch-IsIndexed c.entries c.order c.next_id v.index el here;
            distinct =
                subst (λ (es : List Entry). LacksKey el.entry.key es × HasDistinctKeys es)
                  (sym left)
                  (
                    drop_key-LacksKey el.entry.key (contents c.order),
                    drop_key-HasDistinctKeys el.entry.key (contents c.order) v.distinct,
                  );
          },
          inr (el.entry, refl, listed, inr (fresh, refl, ap (◌∷◌ el.entry) left)),
        )

  get_element-Looked : Looked c el.entry.key now (get_element c el now)
  get_element-Looked = elim (dec_lt now el.entry.expires) [
    | yes fresh ↦ touched-Looked fresh
    | no old ↦ dropped-Looked old
  ]

-- On a cache whose map is an index of its list a look-up keeps it so. A hit moves the entry to the
-- front and leaves the others in order, and returns its message with the TTLs counted down by its
-- age; an expired entry is dropped and a miss; a key with no entry is a miss and changes nothing.
pub get-Looked : (c : Cache) (k : Key) (now : ℕ) → IsCache c → Looked c k now (get c k now)
unfolding get
get-Looked c k now v = elim (Option-cases (lookup k c.entries)) [
  | inl e ↦
      rw (e, get)
        (
          v,
          inl (
            contents-LacksKey k c.order (λ y j p. ground (arith, v.index.indexed y j)),
            refl,
            refl,
          ),
        )
  | inr (i, e) ↦
      let (el, f, p) = v.index.found k i e in
      rw (e, f, get)
        (subst (λ (j : Key). Looked c j now (get_element c el now)) p
          (get_element-Looked c v el (find-In i c.order f).0 now))
]

stored :
    (c : Cache) (k : Key) (m : Msg) (now : ℕ)
    → ttl_for c m ≢ 0
    → put c k (some m) now ≡ store_entry c (new_entry k m (ttl_for c m) now)
unfolding put
stored c k m now h = ground arith

-- A Put keeps the map an index of the list, and never leaves more entries than the cache may hold.
pub put_bounded :
    (c : Cache) (k : Key) (m : Option Msg) (now : ℕ)
    → IsCache c
    → length c.order ≤ c.max_entries
    → IsCache (put c k m now) × (length (put c k m now).order ≤ c.max_entries)
unfolding put
put_bounded c k none now v h = (v, h)
put_bounded c k (some m) now v h = elim (Bool-cases (ttl_for c m == 0)) [
  | inl zero_ttl ↦ rw (zero_ttl, put) (v, h)
  | inr cached ↦
      let e = new_entry k m (ttl_for c m) now in
      let (valid, newest) = store_entry-take c e v in
      rw (cached, put)
        (
          valid,
          omega (
            arith,
            length-contents (store_entry c e).order,
            ap length newest,
            length-take-le c.max_entries (e ∷ drop_key e.key (contents c.order)),
          ),
        )
]

take_first : (n : ℕ) (e : Entry) (es : List Entry) → 0 < n → take n (e ∷ es) ≡ e ∷ take (n - 1) es
unfolding take
take_first zero e es h = absurd (omega arith)
take_first (suc n) e es h = let q : n ≡ suc n - 1 = omega arith in ap (λ (k : ℕ). e ∷ take k es) q

-- The entry at the front of a cache is what a look-up of its key finds.
front_found :
    (c : Cache) (e : Entry) (es : List Entry) (now : ℕ)
    → IsCache c
    → contents c.order ≡ e ∷ es
    → now < e.expires
    → (get c e.key now).1 ≡ some (age_msg ((now - e.stored) / 10 ^ 9 % 2 ^ 32) e.msg)
front_found c e es now v front fresh =
    let d : HasDistinctKeys (e ∷ es) = subst HasDistinctKeys front v.distinct in
    elim (get-Looked c e.key now v).1 [
      | inl (lacks, _, _) ↦ absurd ((subst (LacksKey e.key) front lacks).0 refl)
      | inr (f, p, listed, rest) ↦
          let same = only_entry e es f d p (subst (HasEntry f) front listed) in
          elim rest [
            | inl (late, _, _) ↦
                absurd
                  (omega (arith, fresh, subst (λ (x : Entry). x.expires ≤ now) (sym same) late))
            | inr (_, got, _) ↦
                got
                ∙ ap (λ (x : Entry). some (age_msg ((now - x.stored) / 10 ^ 9 % 2 ^ 32) x.msg))
                    (sym same)
          ]
    ]
  where
    only_entry :
        (x : Entry) (xs : List Entry) (f : Entry)
        → HasDistinctKeys (x ∷ xs)
        → f.key ≡ x.key
        → HasEntry f (x ∷ xs)
        → x ≡ f
    only_entry x xs f u q (inl r) = r
    only_entry x xs f u q (inr r) = absurd (LacksKey-HasEntry x.key xs f u.0 r q)

-- A response that is cached is returned until its TTL has run out: a Put with a positive TTL, then a
-- look-up of the same key before that, gives the stored message with every TTL set to the clamped
-- one and then counted down by the seconds passed.
pub get-put :
    (c : Cache) (k : Key) (m : Msg) (now later : ℕ)
    → IsCache c
    → 0 < c.max_entries
    → ttl_for c m ≢ 0
    → later < now + ttl_for c m * 10 ^ 9
    → (get (put c k (some m) now) k later).1
      ≡ some (age_msg ((later - now) / 10 ^ 9 % 2 ^ 32) (set_ttls (ttl_for c m) m))
unfolding new_entry
get-put c k m now later v room positive soon =
    let e = new_entry k m (ttl_for c m) now in
    let (valid, newest) = store_entry-take c e v in
    let rest = take (c.max_entries - 1) (drop_key k (contents c.order)) in
    let front = newest ∙ take_first c.max_entries e (drop_key k (contents c.order)) room in
    ap (λ (d : Cache). (get d k later).1) (stored c k m now positive)
    ∙ front_found (store_entry c e) e rest later valid front soon
