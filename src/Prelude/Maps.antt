-- ===== src/Prelude/Maps.antt =====
-- Go's `map[K]V` as an association list with the most recent write first. The order in which Go
-- ranges over a map is unspecified; where the code ranges over one, this order stands for it.
use Prim.Native.Nat.{ℕ, suc, ◌≤◌}
use mathlib.Core.Path.{◌≡◌, refl}
use mathlib.Core.Logic.{◌≢◌}
use mathlib.Core.Option.{Option, none, some}
use mathlib.Core.List.{List, [], ◌∷◌}
use native.Mathlib.Omega.{arith}
use kydns_server.Prelude.Equality.{Eq, ◌==◌, if◌then◌else◌}

abbrev pub Map {ℓ κ} : Type ℓ → Type κ → Type (ℓ ⊔ κ)
Map K V = List (K × V)

module _ {ℓ κ} {K : Type ℓ} {V : Type κ} ⦃e : Eq K⦄ where
  -- m[k], with `none` for a missing key
  unfoldable pub lookup : K → Map K V → Option V
  lookup k [] = none
  lookup k ((j, v) ∷ m) = if j == k then some v else lookup k m

  -- delete(m, k)
  unfoldable pub delete : K → Map K V → Map K V
  delete k [] = []
  delete k ((j, v) ∷ m) = let rest = delete k m in if j == k then rest else (j, v) ∷ rest

  -- m[k] = v
  unfoldable pub insert : K → V → Map K V → Map K V
  unfolding delete
  insert k v m = (k, v) ∷ delete k m

  -- len(m)
  unfoldable pub size : Map K V → ℕ
  size [] = 0
  size (_ ∷ m) = suc (size m)

  pub lookup-delete :
      (k j : K) (m : Map K V) → lookup k (delete j m) ≡ (if j == k then none else lookup k m)
  unfolding lookup delete
  lookup-delete k j [] = ground arith
  lookup-delete k j ((i, v) ∷ m) = ground (arith, lookup-delete k j m)

  pub lookup-insert :
      (k j : K) (v : V) (m : Map K V)
      → lookup k (insert j v m) ≡ (if j == k then some v else lookup k m)
  unfolding lookup insert
  lookup-insert k j v m = ground (arith, lookup-delete k j m)

  pub lookup-insert_self : (k : K) (v : V) (m : Map K V) → lookup k (insert k v m) ≡ some v
  lookup-insert_self k v m = ground (arith, lookup-insert k k v m)

  pub lookup-delete_self : (k : K) (m : Map K V) → lookup k (delete k m) ≡ none
  lookup-delete_self k m = ground (arith, lookup-delete k k m)

  pub lookup-insert_ne :
      (k j : K) (v : V) (m : Map K V) → j ≢ k → lookup k (insert j v m) ≡ lookup k m
  lookup-insert_ne k j v m h = ground (arith, lookup-insert k j v m)

  pub lookup-delete_ne : (k j : K) (m : Map K V) → j ≢ k → lookup k (delete j m) ≡ lookup k m
  lookup-delete_ne k j m h = ground (arith, lookup-delete k j m)

  pub size-delete-le : (k : K) (m : Map K V) → size (delete k m) ≤ size m
  unfolding size delete
  size-delete-le k [] = omega arith
  size-delete-le k ((j, v) ∷ m) = ground (arith, size-delete-le k m)

  -- A key that is present is removed by `delete`, so the map shrinks.
  pub size-delete-lt :
      (k : K) (m : Map K V) (v : V) → lookup k m ≡ some v → suc (size (delete k m)) ≤ size m
  unfolding size delete lookup
  size-delete-lt k [] v h = ground arith
  size-delete-lt k ((j, w) ∷ m) v h = ground (arith, size-delete-le k m, size-delete-lt k m v)

  pub delete_absent : (k : K) (m : Map K V) → lookup k m ≡ none → delete k m ≡ m
  unfolding lookup delete
  delete_absent k [] h = refl
  delete_absent k ((j, w) ∷ m) h = ground (arith, delete_absent k m)

pub ruleset map_laws = (lookup-delete, lookup-insert)
