-- ===== src/Tests/Orders.antt =====
-- The orders of a client, the reports on them and the store of the sequence numbers, at concrete
-- inputs.
use bfxfixgw.Base.{ℕ, String, ◌≡◌, refl, false, none, some, ◌⊎◌, arith}
use bfxfixgw.Base.Int.{ℤ, pos}
use bfxfixgw.Base.Text.{contains}
use bfxfixgw.Convert.Finite.{AreFinite}
use bfxfixgw.Convert.Rejects.{Rejects, cancel_reject-Rejects}
use bfxfixgw.Convert.Fields.{Says, is_fix42, is_fix44, execution_report-Says}
use bfxfixgw.Convert.FromFix.{get_time_in_force_from_fix, order_new_type_from_fix}
use bfxfixgw.Convert.OrderReports.{fix_order_cancel_reject, order_report_args}
use bfxfixgw.Convert.OrderType
use bfxfixgw.Convert.Reports.{ReportArgs, fix_execution_report}
use bfxfixgw.Convert.ToFix.{ord_type_to_fix, time_in_force_to_fix}
use bfxfixgw.Fix.{Reject, ok, err, GenericFix, fix42, fix44}
use bfxfixgw.Fix.ExecType
use bfxfixgw.Fix.OrdStatus
use bfxfixgw.Fix.OrdType
use bfxfixgw.Fix.TimeInForce
use bfxfixgw.Inbound.Expiry.{expiry_reported}
use bfxfixgw.Inbound.NewOrder.{NewOrder, read_new_order, new_order_for}
use bfxfixgw.Inbound.NewOrder.Submits.{Submits, new_order-Submits}
use bfxfixgw.Inbound.Orders.{gen_mts_tif}
use bfxfixgw.Inbound.RoundTrips.{IsSupported, reported, order_type_reported}
use bfxfixgw.Store.{NoStore, StoreCall, apply, view, promised, apply-view}
use bfxfixgw.Symbol.{new_passthrough_symbology}
use bfxfixgw.Tests.Layout.{marks}
use bfxfixgw.Tests.Values.{
  int_floats, int_decimals, no_order, willing, session, fresh, order_message, dated_message,
}
use bfxfixgw.World.{rejected, panicked}

new_order-Submits_example :
    let (out, p') =
      new_order_for willing marks new_passthrough_symbology session order_message fresh in
    ((r : Reject) × (read_new_order {F = ℤ} marks new_passthrough_symbology session order_message
        ≡ err r)
      × (out ≡ rejected r)
      × (p' ≡ fresh))
    ⊎ ((n : NewOrder ℤ) × (read_new_order {F = ℤ} marks new_passthrough_symbology session
            order_message
          ≡ ok n)
        × (((gen_mts_tif marks n.bo.time_in_force ≡ none) × (out ≡ panicked) × (p' ≡ fresh))
            ⊎ ((mts : ℤ) × (gen_mts_tif marks n.bo.time_in_force ≡ some mts)
                × Submits willing marks new_passthrough_symbology session order_message fresh n mts
                    out p')))
new_order-Submits_example =
    new_order-Submits willing marks new_passthrough_symbology session order_message fresh

abbrev pub report_args : ReportArgs ℤ
report_args =
    order_report_args no_order "user" ExecType.new (pos 1) OrdStatus.partially_filled "" 64 (pos 0)
      (pos 0)

execution_report-Says_example :
    (AreFinite report_args
      × (m : GenericFix ℤ) × (fix_execution_report fix42 "x-1" report_args new_passthrough_symbology
            "EXORG"
          ≡ some m)
      × Says report_args m)
    ⊎ (¬ (AreFinite report_args)
        × (fix_execution_report {F = ℤ} {D = ℤ} fix42 "x-1" report_args new_passthrough_symbology
              "EXORG"
            ≡ none))
execution_report-Says_example =
    execution_report-Says "x-1" report_args new_passthrough_symbology "EXORG" is_fix42

cancel_reject-Rejects_example :
    (m : GenericFix ℤ) × (fix_order_cancel_reject fix44 "user" "7" "5" "6" "Order not found." false
      ≡ some m)
    × Rejects "7" "5" "6" "Order not found." false m
cancel_reject-Rejects_example =
    cancel_reject-Rejects "user" "7" "5" "6" "Order not found." false is_fix44

type_taken : order_new_type_from_fix order_message ≡ ok OrderType.exchange_limit
unfolding order_new_type_from_fix contains
type_taken = refl

order_type_reported_example : ord_type_to_fix OrderType.exchange_limit ≡ (OrdType.limit, false)
unfolding reported
order_type_reported_example =
    order_type_reported order_message IsSupported.limit OrderType.exchange_limit refl type_taken

expiry_reported_example :
    (tif : String) × (s : String) × (mts : ℤ) × (get_time_in_force_from_fix marks dated_message
      ≡ ok (tif, s))
    × (gen_mts_tif marks s ≡ some mts)
    × (time_in_force_to_fix "EXCHANGE LIMIT" mts ≡ (TimeInForce.good_till_date, pos 1_000_000_000))
expiry_reported_example =
    expiry_reported marks dated_message 1_500_000_000 "EXCHANGE LIMIT" (omega arith) (omega arith)
      refl refl refl

abbrev some_store : NoStore ℕ
some_store = record { sender_msg_seq_num = pos 4; target_msg_seq_num = pos 9; creation_time = 0 }

apply-view_example :
    view (apply (StoreCall.set_next_sender (pos 12)) some_store)
    ≡ promised {T = ℕ} (StoreCall.set_next_sender (pos 12)) (view some_store)
apply-view_example = apply-view (StoreCall.set_next_sender (pos 12)) some_store
