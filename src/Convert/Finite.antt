-- ===== src/Convert/Finite.antt =====
-- Which numbers of an execution report have to be finite: NewFromFloat panics on any other.
use bfxfixgw.Base.{◌≡◌, refl, Bool, true, false, not, ◌&&◌, ◌||◌, ◌==◌, Bool-cases, inl, inr, ◌⊎◌}
use bfxfixgw.Base.Floats.{Floats}
use bfxfixgw.Convert.Reports.{ReportArgs, are_finite, is_convertible}
use bfxfixgw.Fix.OrdType

and-true : (b c : Bool) → (b && c) ≡ true → (b ≡ true) × (c ≡ true)
and-true true true h = (refl, refl)
and-true true false h = absurd (cc h)
and-true false c h = absurd (cc h)

when-true : (b c : Bool) → (not b || c) ≡ true → b ≡ true → c ≡ true
when-true true c h e = h
when-true false c h e = absurd (cc e)

or-true : (b c : Bool) → (b || c) ≡ true → b ≡ false → c ≡ true
or-true true c h e = absurd (cc e)
or-true false c h e = h

true-when : (b c : Bool) → (b ≡ true → c ≡ true) → (not b || c) ≡ true
true-when true c h = h refl
true-when false c h = refl

true-or : (b c : Bool) → (b ≡ false → c ≡ true) → (b || c) ≡ true
true-or true c h = refl
true-or false c h = h refl

both : (b c : Bool) → b ≡ true → c ≡ true → (b && c) ≡ true
both b c h h' = rw (h, h') refl

module _ {F : Type 0} ⦃fl : Floats F⦄ where
  -- The quantities and the average price, and each price and the peg where the report has it.
  pub record AreFinite (a : ReportArgs F) : Type 0 where
    pub orig : fl.is_finite a.orig_qty ≡ true
    pub cum : fl.is_finite a.cum_qty ≡ true
    pub this : fl.is_finite a.this_qty ≡ true
    pub avg : fl.is_finite a.avg_px ≡ true
    pub px :
        (not (fl.eq a.px fl.zero)
            && (a.ord_type == OrdType.limit || a.ord_type == OrdType.stop_limit))
          ≡ true
        → fl.is_finite a.px ≡ true
    pub stop :
        (not (fl.eq a.stop fl.zero)
            && (a.ord_type == OrdType.stop || a.ord_type == OrdType.stop_limit))
          ≡ true
        → fl.is_finite a.stop ≡ true
    pub trail : fl.eq a.trail fl.zero ≡ false → fl.is_finite a.trail ≡ true

  convertible-AreFinite : (a : ReportArgs F) → is_convertible a ≡ true → AreFinite a
  unfolding is_convertible are_finite
  convertible-AreFinite a h =
      let (h6, trail) = and-true _ _ h in
      let (h5, stop) = and-true _ _ h6 in
      let (h4, px) = and-true _ _ h5 in
      let (h3, avg) = and-true _ _ h4 in
      let (h2, this) = and-true _ _ h3 in
      let (orig, cum) = and-true _ _ h2 in
      record {
        orig = orig;
        cum = cum;
        this = this;
        avg = avg;
        px = when-true _ _ px;
        stop = when-true _ _ stop;
        trail = or-true _ _ trail;
      }

  AreFinite-convertible : (a : ReportArgs F) → AreFinite a → is_convertible a ≡ true
  unfolding is_convertible are_finite
  AreFinite-convertible a f =
      rw (f.orig, f.cum, f.this, f.avg)
        (both _ _ (both _ _ (true-when _ _ f.px) (true-when _ _ f.stop)) (true-or _ _ f.trail))

  pub convertible-cases :
      (a : ReportArgs F)
      → ((is_convertible a ≡ true) × AreFinite a) ⊎ ((is_convertible a ≡ false) × (¬ (AreFinite a)))
  convertible-cases a = elim (Bool-cases (is_convertible a)) [
    | inl good ↦ inl (good, convertible-AreFinite a good)
    | inr bad ↦ inr (bad, λ f. cc (AreFinite-convertible a f, bad))
  ]
