-- ===== src/Zone/Tests.antt =====
-- The view matcher of internal/zone/matcher.go at concrete inputs: a /24 inside a /16.
use kydns_server.Prelude.{
  ◌≡◌, refl, true, false, Option, none, some, List, [], ◌∷◌, ◌==◌, if◌then◌else◌, lookup, insert,
  delete,
}
use native.Mathlib.Decide.{ℕ_discrete}
use kydns_server.Text.{Bytes, bytes_eq, Bytes-discrete, bytes, text_less}
use kydns_server.Net.{Prefix, v4, Addr-discrete, Prefix-discrete, is_valid, unmap}
use kydns_server.Zone.Matcher.{
  View, Matcher, ok, new_matcher, match_view, claim, collect_subnets, collect_views, entry_less,
  insert_entry, sort_entries, insert_text, sort_texts, first_view,
}
use kydns_server.Zone.Matcher.Collect.{ViewOf, match_view-ViewOf}

-- Two texts that the parser accepts.
abbrev parse_prefix : Bytes → Option Prefix
parse_prefix s =
    if s == bytes "10.0.0.0/16"
    then some (record { addr = v4 0x0A000000; bits = 16 })
    else if s == bytes "10.0.7.9/24"
    then some (record { addr = v4 0x0A000709; bits = 24 })
    else none

abbrev two_views : List View
two_views =
    record { name = bytes "home"; subnets = bytes "10.0.0.0/16" ∷ [] }
    ∷ record { name = bytes "guest"; subnets = bytes "10.0.7.9/24" ∷ [] }
    ∷ []

program : Unit {0}
unfolding new_matcher match_view claim collect_subnets collect_views entry_less insert_entry
    sort_entries insert_text sort_texts first_view text_less lookup insert delete Bytes-discrete
    ℕ_discrete Addr-discrete Prefix-discrete
program = tt

abbrev two_subnets : Matcher
two_subnets = record {
  entries =
      record { prefix = record { addr = v4 0x0A000700; bits = 24 }; view = bytes "guest" }
      ∷ record { prefix = record { addr = v4 0x0A000000; bits = 16 }; view = bytes "home" }
      ∷ [];
  names = bytes "guest" ∷ bytes "home" ∷ [];
}

built : new_matcher parse_prefix two_views ≡ ok two_subnets
unfolding program
built = refl

guest : match_view two_subnets (v4 0x0A000763) ≡ bytes "guest"
unfolding program
guest = refl

match_view-ViewOf_example :
    (is_valid (v4 0x0A000763) ≡ true
      → ViewOf parse_prefix two_views
          (unmap (v4 0x0A000763))
          (match_view two_subnets (v4 0x0A000763)))
    × (is_valid (v4 0x0A000763) ≡ false → match_view two_subnets (v4 0x0A000763) ≡ [])
match_view-ViewOf_example =
    match_view-ViewOf parse_prefix two_views two_subnets (v4 0x0A000763) built
