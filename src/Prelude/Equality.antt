-- ===== src/Prelude/Equality.antt =====
-- Decidable equality as an interface, and the conditional. `==` of the Go code on numbers, strings
-- and comparable structs is `◌==◌` at the instance for that type.
use Prim.Native.Nat.{ℕ, compare, Ordering}
use Prim.Native.String.{String}
use mathlib.Core.Path.{◌≡◌, refl}
use mathlib.Core.Logic.{◌⊎◌, inl, inr}
use mathlib.Core.Bool.{Bool, true, false}
use mathlib.Core.Option.{Option, none, some}
use native.Mathlib.Decide.{ℕ_discrete}
use native.Mathlib.Omega.{arith}
use text.Mathlib.Text.{◌==◌ as str_eq}
use text.Mathlib.TextEquality.{eq_iff}

pub record Eq {ℓ} (A : Type ℓ) : Type ℓ where
  pub dec : Discrete A

infix 50 ◌==◌
abbrev pub ◌==◌ {ℓ} : {A : Type ℓ} ⦃e : Eq A⦄ → A → A → Bool
◌==◌ ⦃e⦄ a b = elim (e.dec a b) [ yes _ ↦ true | no _ ↦ false ]

instance abbrev pub nat_eq : Eq ℕ
nat_eq = record { dec = ℕ_discrete }

string_dec : (a b : String) (t : Bool) → str_eq a b ≡ t → Dec (a ≡ b)
string_dec a b true e = yes ((eq_iff a b).0 e)
string_dec a b false e = no (λ p. ground (arith, eq_iff a b))

unfoldable pub string_discrete : Discrete String
unfolding string_dec
string_discrete a b = string_dec a b (str_eq a b) refl

instance abbrev pub string_eq : Eq String
string_eq = record { dec = string_discrete }

infix 1 if◌then◌else◌
abbrev pub if◌then◌else◌ {ℓ} : {A : Type ℓ} → Bool → A → A → A
if true then x else y = x
if false then x else y = y

-- These compute to `compare`, which the arithmetic tactics read.
abbrev pub ltb : ℕ → ℕ → Bool
ltb a b = elim (compare a b) [ Ordering.lt ↦ true | _ ↦ false ]

abbrev pub leb : ℕ → ℕ → Bool
leb a b = elim (compare a b) [ Ordering.gt ↦ false | _ ↦ true ]

pub Bool-cases : (b : Bool) → (b ≡ true) ⊎ (b ≡ false)
Bool-cases true = inl refl
Bool-cases false = inr refl

pub Option-cases {ℓ} : {A : Type ℓ} (o : Option A) → (o ≡ none) ⊎ ((a : A) × (o ≡ some a))
Option-cases none = inl refl
Option-cases (some a) = inr (a, refl)

pub ==-refl {ℓ} : {A : Type ℓ} ⦃e : Eq A⦄ (a : A) → (a == a) ≡ true
==-refl ⦃e⦄ a = elim (e.dec a a) as (λ d. elim d [ yes _ ↦ true | no _ ↦ false ] ≡ true) [
  | yes _ ↦ refl
  | no n ↦ absurd (n refl)
]

pub ==→≡ {ℓ} : {A : Type ℓ} ⦃e : Eq A⦄ (a b : A) → (a == b) ≡ true → a ≡ b
==→≡ ⦃e⦄ a b h = ground arith

-- A string is compared with a literal by this, since a literal does not give its own type.
abbrev pub same_text : String → String → Bool
same_text a b = a == b
