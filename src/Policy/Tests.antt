-- ===== src/Policy/Tests.antt =====
-- The domain policy of internal/policy at concrete inputs: a list that blocks a domain, and a rule
-- that allows one of its subdomains.
use kydns_server.Prelude.{
  ◌≡◌, ◌↔◌, refl, true, false, some, List, [], ◌∷◌, lookup, insert, delete, size,
}
use native.Mathlib.Decide.{ℕ_discrete}
use kydns_server.Text.{
  Bytes, bytes_eq, Bytes-discrete, bytes, to_lower, trim_space, trim_left, trim_right, trim_last,
  contains_byte, split, prepend, after_byte,
}
use kydns_server.Policy.Set.{new_set, member, match_from, matches, CoveredBy}
use kydns_server.Policy.Set.Match.{matches_iff}
use kydns_server.Policy.Normalize.{
  Names, normalize, check_ascii, all_valid, valid_label, label_bytes, label_byte, last_is,
}
use kydns_server.Policy.Snapshot.{
  BlacklistSettings, BlacklistList, BlacklistRule, policy_allow, build, domains_of, enabled_lists,
  first_match, decide_name, decide,
}
use kydns_server.Policy.Snapshot.Precedence.{Blocks, decide-Blocks}
use kydns_server.Policy.Holder.{
  Holder, new_holder, rebuild, bump, bump_name, record_block, decide_counted, serve, blocked_under,
}

-- No text is an address, and every text is ASCII.
abbrev plain : Names
plain = record { is_address = λ s. false; to_ascii = λ s. some s }

abbrev on : BlacklistSettings
on = record { enabled = true; block_ttl = 0 }

abbrev lists : List BlacklistList
lists =
    record { name = bytes "ads"; enabled = true; snapshot = bytes "ads.example" ∷ [] }
    ∷ record { name = bytes "off"; enabled = false; snapshot = bytes "b.example" ∷ [] }
    ∷ []

abbrev rules : List BlacklistRule
rules = record { kind = policy_allow; domain = bytes "ok.ads.example" } ∷ []

program : Unit {0}
unfolding member match_from matches new_set after_byte to_lower trim_space trim_left trim_right
    trim_last contains_byte split prepend normalize check_ascii all_valid valid_label label_bytes
    label_byte last_is build domains_of enabled_lists first_match decide_name decide Bytes-discrete
    ℕ_discrete rebuild new_holder bump bump_name record_block decide_counted serve lookup insert
    delete size blocked_under
program = tt

blocked : (decide plain (some (build on lists rules)) (bytes " X.ADS.example. ")).blocked ≡ true
unfolding program
blocked = refl

allowed : (decide plain (some (build on lists rules)) (bytes "ok.ads.example")).blocked ≡ false
unfolding program
allowed = refl

matches_iff_example :
    (matches (new_set (bytes "ads.example" ∷ [])) (bytes "badads.example") ≡ true)
    ↔ CoveredBy (bytes "ads.example" ∷ []) (bytes "badads.example")
unfolding new_set
matches_iff_example = matches_iff (new_set (bytes "ads.example" ∷ [])) (bytes "badads.example")

decide-Blocks_example :
    ((decide plain (some (build on lists rules)) (bytes " X.ADS.example. ")).blocked ≡ true)
    ↔ Blocks lists rules (bytes "x.ads.example")
unfolding program
decide-Blocks_example =
    decide-Blocks plain on lists rules (bytes " X.ADS.example. ") (bytes "x.ads.example") refl refl

abbrev filtering : Holder
unfolding program
filtering = (rebuild new_holder (some (on, lists, rules))).0

abbrev queries : List Bytes
queries = bytes "x.ads.example" ∷ bytes "ads.example" ∷ bytes "b.example" ∷ []
