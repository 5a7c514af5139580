-- ===== src/Base/Maps/Entries.antt =====
-- The entries of a map: what holds of all of them, and how assignments keep it.
use Prim.Native.String.{String}
use mathlib.Core.List.{List, [], ◌∷◌}
use mathlib.Core.Logic.{inl, inr}
use mathlib.Core.Option.{some}
use mathlib.Core.Path.{◌≡◌, refl, sym, subst}
use native.Mathlib.Omega.{arith}
use text.Mathlib.Text.{◌==◌}
use text.Mathlib.TextEquality.{eq_iff}
use text.Mathlib.TextPositions.{eq_refl}
use bfxfixgw.Base.Tests.{Bool-cases}
use bfxfixgw.Base.Maps.{lookup, assign, delete, lookup-assign, Every, Distinct}

module _ {ℓ κ} {V : Type ℓ} (P : String × V → Type κ) where
  pub Every-lookup :
      (m : List (String × V)) (k : String) (v : V) → Every P m → lookup k m ≡ some v → P (k, v)
  unfolding lookup
  Every-lookup [] k v e h = cc
  Every-lookup ((j, w) ∷ m) k v e h = elim (Bool-cases (j == k)) [
    | inl same ↦
        subst (λ x. P (x, v)) ((eq_iff j k).0 same) (subst (λ y. P (j, y)) (ground arith) e.0)
    | inr other ↦ Every-lookup m k v e.1 (rw other at h)
  ]

  pub Every-assign :
      (k : String) (v : V) (m : List (String × V)) → Every P m → P (k, v) → Every P (assign k v m)
  unfolding assign
  Every-assign k v [] e p = (p, tt)
  Every-assign k v ((j, w) ∷ m) e p = elim (Bool-cases (j == k)) [
    | inl same ↦ rw same (subst (λ x. P (x, v)) (sym ((eq_iff j k).0 same)) p, e.1)
    | inr other ↦ rw other (e.0, Every-assign k v m e.1 p)
  ]

  pub Every-delete : (k : String) (m : List (String × V)) → Every P m → Every P (delete k m)
  unfolding delete
  Every-delete k [] e = tt
  Every-delete k ((j, w) ∷ m) e = elim (Bool-cases (j == k)) [
    | inl same ↦ rw same (Every-delete k m e.1)
    | inr other ↦ rw other (e.0, Every-delete k m e.1)
  ]

module _ {ℓ κ κ'} {V : Type ℓ} (P : String × V → Type κ) (Q : String × V → Type κ') where
  pub Every-map : (m : List (String × V)) → ((e : String × V) → P e → Q e) → Every P m → Every Q m
  Every-map [] f e = tt
  Every-map (x ∷ m) f e = (f x e.0, Every-map m f e.1)

module _ {ℓ} {V : Type ℓ} where
  pub Distinct-assign :
      (k : String) (v : V) (m : List (String × V)) → Distinct m → Distinct (assign k v m)
  unfolding assign
  Distinct-assign k v [] d = (unfold lookup in refl, tt)
  Distinct-assign k v ((j, w) ∷ m) d = elim (Bool-cases (j == k)) [
    | inl same ↦ rw same d
    | inr other ↦
        rw other
          (ground (arith, lookup-assign k j v m, eq_iff k j, eq_iff j k), Distinct-assign k v m d.1)
  ]

  -- In a map without repeated keys each entry is what `lookup` finds.
  pub Distinct-entries :
      (m : List (String × V)) → Distinct m → Every (λ e. lookup e.0 m ≡ some e.1) m
  unfolding lookup
  Distinct-entries [] d = tt
  Distinct-entries ((j, w) ∷ m) d = (
    rw eq_refl,
    Every-map (λ e. lookup e.0 m ≡ some e.1) (λ e. lookup e.0 ((j, w) ∷ m) ≡ some e.1) m
        (λ e h. ground (arith, eq_iff j e.0)) (Distinct-entries m d.1),
  )
