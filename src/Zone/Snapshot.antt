-- ===== src/Zone/Snapshot.antt =====
-- internal/zone/snapshot.go: the snapshot of all views, and what it answers.
pub mod Answers
mod Tests
use kydns_server.Prelude.{
  ℕ, zero, suc, ◌+◌, ◌*◌, ◌-◌, ◌/◌, ◌%◌, ◌^◌, Bool, true, false, ◌||◌, ◌&&◌, not, Option, none,
  some, List, [], ◌∷◌, ◌++◌, ◌==◌, nat_eq, ltb, if◌then◌else◌, Map, lookup, insert, length,
  is_empty, map,
}
use kydns_server.Text.{Bytes, bytes_eq, bytes, to_lower, trim_last, has_suffix}
use kydns_server.Net.{Addr, Prefix, invalid, v4, v6, contains, unmap, is4}
use kydns_server.Zone.Matcher.{View, Matcher, MatcherError, ok, err, new_matcher}
use kydns_server.Zone.Index.{
  Rr, Index, Input, Parsers, BuildError, bad_views, Result, built, failed, build_index, records_at,
}

pub record Snapshot : Type 0 where
  pub generation : ℕ
  pub matcher : Matcher
  pub views : Map Bytes Index
  pub zone : Bytes
  pub reverse_zones : List Prefix

-- The loop over the views.
unfoldable pub build_views :
    Parsers → Input → Bytes → List Bytes → Map Bytes Index → Result (Map Bytes Index)
build_views parsers i zone [] m = built m
build_views parsers i zone (view ∷ rest) m = elim (build_index parsers i view zone) [
  | failed e ↦ failed e
  | built idx ↦ build_views parsers i zone rest (insert view idx m)
]

unfoldable pub build : Parsers → Input → Result Snapshot
build parsers i = elim (new_matcher parsers.parse_prefix i.views) [
  | err e ↦ failed (bad_views e)
  | ok m ↦ elim (build_views parsers i (to_lower i.zone) ([] ∷ m.names) []) [
    | failed e ↦ failed e
    | built views ↦ built (record {
      generation = i.generation;
      matcher = m;
      views = views;
      zone = to_lower i.zone;
      reverse_zones = i.reverse_zones;
    })
  ]
]

-- The index that a view reads: its own, or that of the default view.
unfoldable pub index_of : Snapshot → Bytes → Option Index
index_of s view = elim (lookup view s.views) [ some idx ↦ some idx | none ↦ lookup [] s.views ]

-- Lookup; `none` is the panic on a nil index.
unfoldable pub lookup_records : Snapshot → Bytes → Bytes → Option (List Rr)
lookup_records s view name = elim (index_of s view) [
  | none ↦ none
  | some idx ↦ some (records_at (to_lower name) idx.forward)
]

-- LookupPTR
unfoldable pub lookup_ptr : Snapshot → Bytes → Bytes → Option Bytes
lookup_ptr s view arpa = elim (index_of s view) [
  | none ↦ none
  | some idx ↦ elim (lookup (to_lower arpa) idx.reverse) [ none ↦ some [] | some name ↦ some name ]
]

-- HasName
unfoldable pub has_name : Snapshot → Bytes → Bytes → Option Bool
has_name s view name = elim (lookup_records s view name) [
  | none ↦ none
  | some rrs ↦ some (ltb 0 (length rrs))
]
