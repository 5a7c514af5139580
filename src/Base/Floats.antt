-- ===== src/Base/Floats.antt =====
-- Go's float64, as far as the program computes with it, and the decimals of shopspring/decimal.
-- Rounding is not modelled: the arithmetic is a parameter, with the few laws that the proofs use,
-- which hold for IEEE 754 numbers, NaN included.
use mathlib.Core.Bool.{Bool, true, false}
use mathlib.Core.Path.{◌≡◌}
use bfxfixgw.Base.Tests.{if◌then◌else◌}

pub record Floats (F : Type 0) : Type 0 where
  pub zero : F
  pub add : F → F → F
  pub mul : F → F → F
  pub div : F → F → F
  pub neg : F → F
  -- x < y and x == y
  pub lt : F → F → Bool
  pub eq : F → F → Bool
  -- neither NaN nor an infinity
  pub is_finite : F → Bool
  pub neg_of_negative : (x : F) → lt x zero ≡ true → lt zero (neg x) ≡ true
  pub lt_asymm : (x y : F) → lt x y ≡ true → lt y x ≡ false

module _ {F : Type 0} ⦃fl : Floats F⦄ where
  -- if x < 0 { x = -x }
  unfoldable pub magnitude : F → F
  magnitude x = if fl.lt x fl.zero then fl.neg x else x

-- `D` stands for decimal.Decimal.
pub record Decimals (F D : Type 0) : Type 0 where
  -- NewFromFloat: what its callers give it is finite, or else they test that it is, since it panics
  -- on NaN and on the infinities.
  pub of_float : F → D
  pub to_float : D → F
  pub sub : D → D → D
  pub zero : D
  -- d.Cmp(decimal.Zero) == 0
  pub is_zero : D → Bool
