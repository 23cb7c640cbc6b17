-- ===== src/Dns/Cache/Removal.antt =====
-- The removals of internal/dnsserver/cache.go keep its map and its list in step.
use kydns_server.Prelude.{
  ◌≡◌, inl, inr, refl, sym, ap, ◌∙◌, none, nat_eq, arith, Option-cases, lookup, lookup-delete,
}
use kydns_server.Dns.Cache.{Key, key_eq, Element, Cache, remove, remove_element, remove_key}
use kydns_server.Dns.Cache.Elements
use kydns_server.Dns.Cache.Elements.{In, IsIndexed, find-In}
use kydns_server.Dns.Cache.Keys.{
  contents, drop_key, HasDistinctKeys, contents-remove, contents-LacksKey, drop_key_lacking,
  drop_key-HasDistinctKeys,
}

-- The map is an index of the list, and no two entries have one key.
pub record IsCache (c : Cache) : Type 0 where
  pub index : IsIndexed c.entries c.order c.next_id
  pub distinct : HasDistinctKeys (contents c.order)

module _ (c : Cache) (v : IsCache c) (el : Element) (here : In el c.order) where
  pub contents_dropped : contents (remove el.id c.order) ≡ drop_key el.entry.key (contents c.order)
  contents_dropped = contents-remove el.id el.entry.key c.order λ y j. ground (
    arith,
    Elements.same_key c.entries c.order c.next_id v.index y el j here,
    Elements.same_id c.entries c.order c.next_id v.index y el j here,
  )

  pub remove_element-IsCache :
      IsCache (remove_element c el)
      × (contents (remove_element c el).order ≡ drop_key el.entry.key (contents c.order))
  unfolding remove_element
  remove_element-IsCache = (
    record {
      index = Elements.remove-IsIndexed c.entries c.order c.next_id v.index el here;
      distinct =
          rw contents_dropped (drop_key-HasDistinctKeys el.entry.key (contents c.order) v.distinct);
    },
    contents_dropped,
  )

-- What the removal of a key leaves.
pub record Removed (c d : Cache) (k : Key) : Type 0 where
  pub valid : IsCache d
  pub rest : contents d.order ≡ drop_key k (contents c.order)
  pub gone : lookup k d.entries ≡ none
  pub same_max : d.max_entries ≡ c.max_entries

pub remove_key-Removed : (c : Cache) (k : Key) → IsCache c → Removed c (remove_key c k) k
unfolding remove_key
remove_key-Removed c k v = elim (Option-cases (lookup k c.entries)) [
  | inl e ↦
      rw (e, remove_key)
        (record {
          valid = v;
          rest = sym (
              drop_key_lacking k (contents c.order)
                (contents-LacksKey k c.order λ y j p. ground (arith, v.index.indexed y j)));
          gone = e;
          same_max = refl;
        })
  | inr (i, e) ↦
      let (el, f, p) = v.index.found k i e in
      let (here, q) = find-In i c.order f in
      let (valid, left) = remove_element-IsCache c v el here in
      rw (e, f, remove_key)
        (record {
          valid = valid;
          rest = left ∙ ap (λ (j : Key). drop_key j (contents c.order)) p;
          gone = removed_gone el p;
          same_max = removed_max el;
        })
]
  where
    removed_gone : (el : Element) → el.entry.key ≡ k → lookup k (remove_element c el).entries ≡ none
    removed_gone el p =
        unfold remove_element in ground (arith, lookup-delete k el.entry.key c.entries)

    removed_max : (el : Element) → (remove_element c el).max_entries ≡ c.max_entries
    removed_max el = unfold remove_element in refl
