-- ===== src/Policy/Set.antt =====
-- internal/policy/set.go: a set of domains that matches a name and its subdomains.
pub mod Match
use kydns_server.Prelude.{
  ℕ, zero, suc, ◌+◌, ◌<◌, ◌≤◌, ◌≡◌, ◌≢◌, ◌↔◌, ◌⊎◌, inl, inr, refl, Bool, true, false, ◌||◌, Option,
  none, some, List, [], ◌∷◌, ◌++◌, ◌==◌, arith, if◌then◌else◌, Bool-cases, Option-cases, length,
}
use kydns_server.Text.{Bytes, bytes_eq, after_byte}

-- The map from domains to nothing, as the list of its keys.
pub record Set : Type 0 where
  pub m : List Bytes

unfoldable pub new_set : List Bytes → Set
new_set domains = record { m = domains }

-- `_, ok := s.m[name]`
unfoldable pub member : Bytes → List Bytes → Bool
member name [] = false
member name (d ∷ ds) = d == name || member name ds

-- Match's loop: the name, then what follows each dot in turn.
unfoldable pub match_from : ℕ → List Bytes → Bytes → Bool
match_from zero m name = false
match_from (suc fuel) m name =
    if member name m
    then true
    else elim (after_byte b'.' name) [ none ↦ false | some rest ↦ match_from fuel m rest ]

-- One round for each byte, and one more.
unfoldable pub matches : Set → Bytes → Bool
unfolding match_from
matches s name = elim s.m [ [] ↦ false | d ∷ ds ↦ match_from (suc (length name)) s.m name ]

-- The name is the domain, or ends in a dot and the domain.
abbrev pub Covers : Bytes → Bytes → Type 0
Covers domain name = (name ≡ domain) ⊎ ((label : Bytes) × (name ≡ label ++ b'.' ∷ domain))

abbrev pub InSet : List Bytes → Bytes → Type 0
InSet [] name = ⊥
InSet (d ∷ ds) name = (d ≡ name) ⊎ InSet ds name

-- Some domain of the list covers the name.
abbrev pub CoveredBy : List Bytes → Bytes → Type 0
CoveredBy [] name = ⊥
CoveredBy (d ∷ ds) name = Covers d name ⊎ CoveredBy ds name
