-- ===== src/Base/Maps.antt =====
-- Go's `map[string]V`: an association list, and the order in which a `range` visits it. Go does
-- not fix that order, so a function that ranges over a map takes it as an argument.
pub mod Entries
pub mod Orders
use Prim.Native.String.{String}
use mathlib.Core.Bool.{Bool}
use mathlib.Core.List.{List, [], ◌∷◌, Permᴰ}
use mathlib.Core.Option.{Option, none, some}
use mathlib.Core.Path.{◌≡◌, refl}
use native.Mathlib.Omega.{arith}
use text.Mathlib.Text.{◌==◌}
use text.Mathlib.TextEquality.{eq_iff}
use bfxfixgw.Base.Tests.{if◌then◌else◌}

module _ {ℓ} {V : Type ℓ} where
  -- v, ok := m[k]
  unfoldable pub lookup : String → List (String × V) → Option V
  lookup k [] = none
  lookup k ((j, v) ∷ m) = if j == k then some v else lookup k m

  -- m[k] = v
  unfoldable pub assign : String → V → List (String × V) → List (String × V)
  assign k v [] = (k, v) ∷ []
  assign k v ((j, w) ∷ m) = if j == k then (j, v) ∷ m else (j, w) ∷ assign k v m

  -- delete(m, k)
  unfoldable pub delete : String → List (String × V) → List (String × V)
  delete k [] = []
  delete k ((j, w) ∷ m) = let rest = delete k m in if j == k then rest else (j, w) ∷ rest

  pub lookup-assign :
      (k j : String) (v : V) (m : List (String × V))
      → lookup j (assign k v m) ≡ (if k == j then some v else lookup j m)
  unfolding lookup assign
  lookup-assign k j v [] = refl
  lookup-assign k j v ((i, w) ∷ m) =
      ground (arith, eq_iff k j, eq_iff i k, eq_iff i j, lookup-assign k j v m)

  pub lookup-delete :
      (k j : String) (m : List (String × V))
      → lookup j (delete k m) ≡ (if k == j then none else lookup j m)
  unfolding lookup delete
  lookup-delete k j [] = ground arith
  lookup-delete k j ((i, w) ∷ m) =
      ground (arith, eq_iff k j, eq_iff i k, eq_iff i j, lookup-delete k j m)

  -- Every entry satisfies `P`.
  abbrev pub Every {κ} : (String × V → Type κ) → List (String × V) → Type κ
  Every P [] = Unit
  Every P (e ∷ m) = P e × Every P m

  -- No key twice, as in a Go map.
  abbrev pub Distinct : List (String × V) → Type ℓ
  Distinct [] = Unit
  Distinct ((k, v) ∷ m) = (lookup k m ≡ none) × Distinct m

-- The order of one `range` loop.
abbrev pub Order {ℓ} : Type ℓ → Type ℓ
Order V = List (String × V) → List (String × V)

-- A `range` loop visits every entry once.
abbrev pub IsOrder {ℓ} : {V : Type ℓ} → Order V → Type ℓ
IsOrder {V} r = (m : List (String × V)) → Permᴰ (r m) m

module _ {ℓ} {A : Type ℓ} where
  -- for _, a := range l { if p(a) { return a, true } }
  unfoldable pub find_first : (A → Bool) → List A → Option A
  find_first p [] = none
  find_first p (a ∷ l) = if p a then some a else find_first p l
