-- ===== src/Settings/Rename/Moves.antt =====
-- Where RenameInZone of internal/store/settings.go puts a name.
use kydns_server.Prelude.{
  ◌≡◌, ◌≢◌, ◌⊎◌, ◌+◌, ◌<◌, inl, inr, refl, sym, ap, ◌∙◌, ℕ, none, some, [], ◌∷◌, ◌++◌, true, nat_eq,
  string_eq, length, arith, Bool-cases,
}
use kydns_server.Text.{Bytes, bytes_eq, to_lower, trim_space, has_suffix, trim_suffix}
use kydns_server.Registry.Validate.Names.{has_suffix-append}
use kydns_server.Settings.Rename.{dotted, move_name, rename_in_zone, or_same}

abbrev lowered : Bytes → Bytes
lowered name = to_lower (trim_space name)

-- The fully qualified form of a name that is not blank.
abbrev pub qualified : Bytes → Bytes
qualified name = dotted (lowered name)

-- The zones are two, and neither is empty.
abbrev pub Changes : Bytes → Bytes → Type 0
Changes from to = (from ≢ []) × (to ≢ []) × (from ≢ to)

-- The zone's own name becomes that of the new zone, a name below the zone keeps what stands before
-- it, and any other name stays as it is written.
pub record Moves (from to old new : Bytes) : Type 0 where
  pub apex : Changes from to → lowered old ≢ [] → qualified old ≡ from → new ≡ to
  pub below :
      Changes from to
      → lowered old ≢ []
      → (prefix : Bytes) → qualified old ≡ prefix ++ b'.' ∷ from
      → new ≡ prefix ++ b'.' ∷ to
  pub other :
      qualified old ≢ from → ((prefix : Bytes) → qualified old ≢ prefix ++ b'.' ∷ from) → new ≡ old
  pub kept : ((lowered old ≡ []) ⊎ ((from ≡ []) ⊎ ((to ≡ []) ⊎ (from ≡ to)))) → new ≡ old

length-longer : (p t : Bytes) (c : ℕ) → length t < length (p ++ c ∷ t)
length-longer [] t c = omega arith
length-longer (d ∷ p) t c = omega (arith, length-longer p t c)

not_longer : (p t : Bytes) (c : ℕ) → p ++ c ∷ t ≢ t
not_longer p t c h =
    let same : length (p ++ c ∷ t) ≡ length t = ap length h in omega (arith, length-longer p t c)

longer : (c : ℕ) (p t : Bytes) → c ∷ (p ++ t) ≢ t
longer c p t h =
    let same : length (c ∷ (p ++ t)) ≡ length t = ap length h in omega (arith, at_least p t)
  where
    at_least : (p t : Bytes) → length t < length (p ++ t) + 1
    at_least [] t = omega arith
    at_least (d ∷ p) t = omega (arith, at_least p t)

has_suffix-of : (p t : Bytes) → has_suffix (p ++ t) t ≡ true
unfolding has_suffix
has_suffix-of [] [] = ground arith
has_suffix-of [] (c ∷ t) = ground arith
has_suffix-of (c ∷ p) t = ground (arith, has_suffix-of p t)

trim_suffix-append : (p t : Bytes) → t ≢ [] → trim_suffix (p ++ t) t ≡ p
unfolding trim_suffix
trim_suffix-append [] [] h = refl
trim_suffix-append [] (c ∷ t) h = ground arith
trim_suffix-append (c ∷ p) t h = ground (arith, trim_suffix-append p t h, longer c p t)

append-one : (p t : Bytes) (c : ℕ) → (p ++ c ∷ []) ++ t ≡ p ++ c ∷ t
append-one [] t c = refl
append-one (d ∷ p) t c = ap (◌∷◌ d) (append-one p t c)

move_name-below :
    (p from to : Bytes) → from ≢ [] → move_name (p ++ b'.' ∷ from) from to ≡ some (p ++ b'.' ∷ to)
unfolding move_name
move_name-below p from to named =
    let cut : trim_suffix (p ++ b'.' ∷ from) from ≡ p ++ b'.' ∷ [] =
      ap (λ (s : Bytes). trim_suffix s from) (sym (append-one p from b'.'))
      ∙ trim_suffix-append (p ++ b'.' ∷ []) from named in
    let moved : trim_suffix (p ++ b'.' ∷ from) from ++ to ≡ p ++ b'.' ∷ to =
      ap (λ (s : Bytes). s ++ to) cut ∙ append-one p to b'.' in
    ground (arith, moved, has_suffix-of p (b'.' ∷ from), not_longer p from b'.')

move_name-other :
    (n from to : Bytes)
    → n ≢ from
    → ((prefix : Bytes) → n ≢ prefix ++ b'.' ∷ from)
    → move_name n from to ≡ none
unfolding move_name
move_name-other n from to away apart = elim (Bool-cases (has_suffix n (b'.' ∷ from))) [
  | inr clear ↦ ground arith
  | inl ends ↦ let (p, same) = has_suffix-append n (b'.' ∷ from) ends in absurd (apart p same)
]

rename_in_zone_changed :
    (name from to : Bytes)
    → Changes from to
    → lowered name ≢ []
    → rename_in_zone name from to ≡ move_name (qualified name) from to
unfolding rename_in_zone
rename_in_zone_changed name from to (named, target, changed) given = ground arith

rename_in_zone-kept :
    (name from to : Bytes)
    → ((lowered name ≡ []) ⊎ ((from ≡ []) ⊎ ((to ≡ []) ⊎ (from ≡ to))))
    → rename_in_zone name from to ≡ none
unfolding rename_in_zone
rename_in_zone-kept name from to h = ground arith

rename_in_zone-other :
    (name from to : Bytes)
    → qualified name ≢ from
    → ((prefix : Bytes) → qualified name ≢ prefix ++ b'.' ∷ from)
    → rename_in_zone name from to ≡ none
unfolding rename_in_zone
rename_in_zone-other name from to away apart =
    ground (arith, move_name-other (qualified name) from to away apart)

pub rename_in_zone-Moves :
    (name from to : Bytes) → Moves from to name (or_same name (rename_in_zone name from to))
unfolding move_name
rename_in_zone-Moves name from to = record {
  apex = λ changes given here.
      let at_apex : move_name (qualified name) from to ≡ some to = ground arith in
      ap (or_same name) (rename_in_zone_changed name from to changes given ∙ at_apex);
  below = λ changes given p here. ap (or_same name) (
      rename_in_zone_changed name from to changes given
      ∙ ap (λ (n : Bytes). move_name n from to) here
      ∙ move_name-below p from to changes.0);
  other = λ away apart. ap (or_same name) (rename_in_zone-other name from to away apart);
  kept = λ h. ap (or_same name) (rename_in_zone-kept name from to h);
}
