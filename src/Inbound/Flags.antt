-- ===== src/Inbound/Flags.antt =====
-- What becomes of the two flags of an order on the way from FIX to Bitfinex and back.
use Prim.Native.String.{◌++◌ as join}
use bfxfixgw.Base.{
  String, Bool, true, false, not, ◌≡◌, refl, ap, ◌∙◌, some, none, inl, inr, if◌then◌else◌,
}
use bfxfixgw.Base.Floats.{Floats, Decimals}
use bfxfixgw.Convert.Fields.{IsVersion, when, execution_report-Says}
use bfxfixgw.Convert.Finite.{AreFinite}
use bfxfixgw.Convert.Reports.{ReportArgs, fix_execution_report}
use bfxfixgw.Convert.ToFix.{has_flag, flag_hidden, flag_post_only}
use bfxfixgw.Fix.{text, BeginString, GenericFix, get}
use bfxfixgw.Fix.DisplayMethod
use bfxfixgw.Fix.ExecInst
use bfxfixgw.Fix.Tag
use bfxfixgw.Inbound.Orders.{gen_flags}
use bfxfixgw.Symbol.{Symbology}

hidden_kept : (hidden post_only : Bool) → has_flag (gen_flags hidden post_only) flag_hidden ≡ hidden
unfolding gen_flags has_flag
hidden_kept true true = refl
hidden_kept true false = refl
hidden_kept false true = refl
hidden_kept false false = refl

post_only_kept :
    (hidden post_only : Bool) → has_flag (gen_flags hidden post_only) flag_post_only ≡ post_only
unfolding gen_flags has_flag
post_only_kept true true = refl
post_only_kept true false = refl
post_only_kept false true = refl
post_only_kept false false = refl

module _ {F D : Type 0} ⦃fl : Floats F⦄ ⦃dc : Decimals F D⦄ where
  -- A report shows the flags that genFlags makes of an order, in every version of FIX that the
  -- gateway speaks, if its numbers are finite: it has the display method of a hidden order exactly
  -- if the order is hidden, and the execution instructions say that it is post only exactly if it
  -- is, after the one of a peg, which is there exactly if the report has a trailing price.
  pub flags_reported :
      {v : BeginString} (hidden post_only : Bool) (exec_id : String) (a : ReportArgs F)
      (symbology : Symbology) (counterparty : String)
      → IsVersion v
      → AreFinite a
      → a.flags ≡ gen_flags hidden post_only
      → (m : GenericFix D) × (fix_execution_report v exec_id a symbology counterparty ≡ some m)
        × (get Tag.display_method m
            ≡ (if hidden then some (text DisplayMethod.undisclosed) else none))
        × (get Tag.exec_inst m ≡ (
            if not (fl.eq a.trail fl.zero)
            then (if post_only
                then some (text (join ExecInst.primary_peg ExecInst.participant_dont_initiate))
                else some (text ExecInst.primary_peg))
            else (if post_only then some (text ExecInst.participant_dont_initiate) else none)))
  flags_reported hidden post_only exec_id a symbology counterparty v finite flags =
      let hides : has_flag a.flags flag_hidden ≡ hidden =
        ap (λ x. has_flag x flag_hidden) flags ∙ hidden_kept hidden post_only in
      let posts : has_flag a.flags flag_post_only ≡ post_only =
        ap (λ x. has_flag x flag_post_only) flags ∙ post_only_kept hidden post_only in
      elim (execution_report-Says ⦃dc = dc⦄ exec_id a symbology counterparty v) [
        | inr (not_finite, e) ↦ absurd (not_finite finite)
        | inl (also, m, e, says) ↦ (
          m,
          e,
          says.hidden ∙ ap (λ b. when b (text DisplayMethod.undisclosed)) hides,
          rw says.inst (rw posts refl),
        )
      ]
