-- ===== src/Base/Maps/Orders.antt =====
-- `range` loops that stop at the first entry with a property: what they find does not depend on
-- the order as far as the property tells entries apart.
use Prim.Native.String.{String}
use mathlib.Core.Bool.{Bool, true, false}
use mathlib.Core.List.{List, [], ◌∷◌, Permᴰ}
use mathlib.Core.List.Permᴰ as Perm
use mathlib.Core.Logic.{inl, inr}
use mathlib.Core.Option.{none, some}
use mathlib.Core.Path.{◌≡◌, ◌∙◌, ap, sym, subst}
use native.Mathlib.Omega.{arith}
use bfxfixgw.Base.Tests.{Bool-cases, Option-cases}
use bfxfixgw.Base.Maps.{lookup, Every, Distinct, Order, IsOrder, find_first}
use bfxfixgw.Base.Maps.Entries.{Every-lookup, Distinct-entries}

module _ {ℓ κ} {V : Type ℓ} (P : String × V → Type κ) where
  pub Every-perm : (l m : List (String × V)) → Permᴰ l m → Every P m → Every P l
  Every-perm _ _ Permᴰ.nil e = tt
  Every-perm _ _ (Permᴰ.cons p h) e = (subst P (sym p) e.0, Every-perm _ _ h e.1)
  Every-perm _ _ (Permᴰ.swap p q) e = (subst P (sym p) e.1.0, (subst P (sym q) e.0, e.1.1))
  Every-perm _ _ (Permᴰ.trans h k) e = Every-perm _ _ h (Every-perm _ _ k e)

  pub Every-find_first :
      (p : String × V → Bool) (l : List (String × V)) (e : String × V)
      → Every P l
      → find_first p l ≡ some e
      → P e × (p e ≡ true)
  unfolding find_first
  Every-find_first p [] e h f = cc
  Every-find_first p (x ∷ l) e h f = elim (Bool-cases (p x)) [
    | inl hit ↦ let same : x ≡ e = ground arith in (subst P same h.0, rw (← same) hit)
    | inr miss ↦ Every-find_first p l e h.1 (rw miss at f)
  ]

module _ {ℓ} {V : Type ℓ} (p : String × V → Bool) where
  pub find_first-none : (l : List (String × V)) → find_first p l ≡ none → Every (λ e. p e ≡ false) l
  unfolding find_first
  find_first-none [] f = tt
  find_first-none (x ∷ l) f = elim (Bool-cases (p x)) [
    | inl hit ↦ cc (rw hit at f)
    | inr miss ↦ (miss, find_first-none l (rw miss at f))
  ]

module _ {ℓ} {V : Type ℓ} (p : String × V → Bool) (m : List (String × V)) (d : Distinct m) where
  module _ (r : Order V) (o : IsOrder r) where
    -- What the loop stops at is an entry of the map that passes the test.
    pub found :
        (k : String) (v : V)
        → find_first p (r m) ≡ some (k, v)
        → (lookup k m ≡ some v) × (p (k, v) ≡ true)
    found k v =
        Every-find_first (λ e. lookup e.0 m ≡ some e.1) p (r m) (k, v)
          (Every-perm (λ e. lookup e.0 m ≡ some e.1) (r m) m (o m) (Distinct-entries m d))

    -- A loop that finds nothing has seen every entry of the map.
    pub not_found : find_first p (r m) ≡ none → Every (λ e. p e ≡ false) m
    not_found h =
        Every-perm (λ e. p e ≡ false) m (r m) (Perm.symm (o m)) (find_first-none p (r m) h)

    -- If an entry passes, the loop stops at one.
    pub finds :
        (k : String) (v : V)
        → lookup k m ≡ some v
        → p (k, v) ≡ true
        → (e : String × V) × (find_first p (r m) ≡ some e)
    finds k v h t = elim (Option-cases (find_first p (r m))) [
      | inl nothing ↦ absurd (cc (Every-lookup (λ e. p e ≡ false) m k v (not_found nothing) h, t))
      | inr hit ↦ hit
    ]

  -- If only one entry can pass, every order finds the same.
  pub find_first_deterministic :
      (r s : Order V)
      → IsOrder r
      → IsOrder s
      → ((k j : String) (v w : V)
          → lookup k m ≡ some v
          → lookup j m ≡ some w
          → p (k, v) ≡ true
          → p (j, w) ≡ true
          → k ≡ j)
      → find_first p (r m) ≡ find_first p (s m)
  find_first_deterministic r s o q only = elim (Option-cases (find_first p (r m))) [
    | inl miss ↦ elim (Option-cases (find_first p (s m))) [
      | inl miss' ↦ miss ∙ sym miss'
      | inr ((j, w), hit) ↦
          let (at, passes) = found s q j w hit in
          absurd (cc (Every-lookup (λ e. p e ≡ false) m j w (not_found r o miss) at, passes))
    ]
    | inr ((k, v), hit) ↦
        let (at, passes) = found r o k v hit in
        let ((j, w), hit') = finds s q k v at passes in
        let (at', passes') = found s q j w hit' in
        let same : k ≡ j = only k j v w at at' passes passes' in
        cc (same, at, at', hit, hit', ap (λ x. lookup x m) same)
  ]
