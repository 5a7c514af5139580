-- ===== src/Tests/Flags.antt =====
-- The flags of a hidden order, at a concrete input.
use bfxfixgw.Base.{◌≡◌, refl, true, false, some, none}
use bfxfixgw.Base.Int.{ℤ}
use bfxfixgw.Convert.Fields.{is_fix42}
use bfxfixgw.Convert.Finite.{AreFinite}
use bfxfixgw.Convert.OrderReports.{order_report_args}
use bfxfixgw.Convert.Reports.{fix_execution_report}
use bfxfixgw.Fix.{text, fix42, GenericFix, get}
use bfxfixgw.Fix.DisplayMethod
use bfxfixgw.Fix.Tag
use bfxfixgw.Inbound.Flags.{flags_reported}
use bfxfixgw.Inbound.Orders.{gen_flags}
use bfxfixgw.Symbol.{new_passthrough_symbology}
use bfxfixgw.Tests.Orders.{report_args}
use bfxfixgw.Tests.Values.{int_floats, int_decimals}

report_args-AreFinite : AreFinite report_args
report_args-AreFinite = record {
  orig = refl;
  cum = refl;
  this = refl;
  avg = refl;
  px = λ h. refl;
  stop = λ h. refl;
  trail = λ h. refl;
}

is_hidden : report_args.flags ≡ gen_flags true false
unfolding order_report_args gen_flags
is_hidden = refl

flags_reported_example :
    (m : GenericFix ℤ) × (fix_execution_report fix42 "x-1" report_args new_passthrough_symbology
        "EXORG"
      ≡ some m)
    × (get Tag.display_method m ≡ some (text DisplayMethod.undisclosed))
    × (get Tag.exec_inst m ≡ none)
unfolding order_report_args
flags_reported_example =
    flags_reported true false "x-1" report_args new_passthrough_symbology "EXORG" is_fix42
      report_args-AreFinite is_hidden
