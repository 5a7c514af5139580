-- ===== src/Convert/OrderReports.antt =====
-- convert/fix_msg.go: the execution reports of orders and trades, and the cancel reject.
use bfxfixgw.Base.{
  ℕ, String, Bool, not, ◌||◌, Option, none, some, List, [], ◌∷◌, ◌==◌, if◌then◌else◌,
}
use bfxfixgw.Base.Floats.{Floats, Decimals, magnitude}
use bfxfixgw.Base.Int.{ℤ}
use bfxfixgw.Base.Text.Decimal.{format_int}
use bfxfixgw.Convert.Reports.{
  Order, TradeExecutionUpdate, ReportArgs, order_not_found_text, set_if, new_message,
  fix_execution_report,
}
use bfxfixgw.Convert.ToFix.{ord_type_to_fix, time_in_force_to_fix, side_to_fix}
use bfxfixgw.Fix.{Value, text, dec, BeginString, GenericFix, set, order_cancel_reject}
use bfxfixgw.Fix.CommType
use bfxfixgw.Fix.CxlRejReason
use bfxfixgw.Fix.CxlRejResponseTo
use bfxfixgw.Fix.ExecType
use bfxfixgw.Fix.OrdStatus
use bfxfixgw.Fix.Tag
use bfxfixgw.Symbol.{Symbology}

module _ {F : Type 0} ⦃fl : Floats F⦄ where
  -- The arguments that FIXExecutionReportFromOrder passes on.
  unfoldable pub order_report_args :
      Order F
      → (account exec_type : String) → (cum_qty : F) → (ord_status message : String) → (flags : ℕ)
      → (stop peg : F) → ReportArgs F
  order_report_args o account exec_type cum_qty ord_status message flags stop peg =
      let (ord_type, is_margin) = ord_type_to_fix o.type in
      let (tif, exp) = time_in_force_to_fix o.type o.mts_tif in
      record {
        symbol = o.symbol;
        cl_ord_id = format_int o.cid;
        order_id = format_int o.id;
        account = account;
        exec_type = exec_type;
        side = side_to_fix o.amount;
        orig_qty = magnitude o.amount;
        this_qty = fl.zero;
        cum_qty = cum_qty;
        px = o.price;
        stop = stop;
        trail = peg;
        avg_px = o.price_avg;
        ord_status = ord_status;
        ord_type = ord_type;
        is_margin = is_margin;
        tif = tif;
        exp = exp;
        text = message;
        flags = flags;
      }

  -- totalFillQty >= origQty
  unfoldable pub is_filled : (total_fill_qty orig_qty : F) → Bool
  is_filled total_fill_qty orig_qty = fl.lt orig_qty total_fill_qty || fl.eq total_fill_qty orig_qty

  -- The arguments that FIXExecutionReportFromTradeExecutionUpdate passes on.
  unfoldable pub trade_report_args :
      TradeExecutionUpdate F
      → (account cl_ord_id : String)
      → (orig_qty total_fill_qty orig_px stop_px trail_px avg_fill_px : F) → (exp_tif : ℤ)
      → (flags : ℕ) → ReportArgs F
  unfolding is_filled
  trade_report_args t account cl_ord_id orig_qty total_fill_qty orig_px stop_px trail_px avg_fill_px
        exp_tif flags =
      let filled = is_filled total_fill_qty orig_qty in
      let (ord_type, is_margin) = ord_type_to_fix t.order_type in
      let (tif, exp) = time_in_force_to_fix t.order_type exp_tif in
      record {
        symbol = t.pair;
        cl_ord_id = cl_ord_id;
        order_id = format_int t.order_id;
        account = account;
        exec_type = if filled then ExecType.fill else ExecType.partial_fill;
        side = side_to_fix t.exec_amount;
        orig_qty = orig_qty;
        this_qty = magnitude t.exec_amount;
        cum_qty = total_fill_qty;
        px = orig_px;
        stop = stop_px;
        trail = trail_px;
        avg_px = avg_fill_px;
        ord_status = if filled then OrdStatus.filled else OrdStatus.partially_filled;
        ord_type = ord_type;
        is_margin = is_margin;
        tif = tif;
        exp = exp;
        text = "";
        flags = flags;
      }

module _ {F D : Type 0} ⦃fl : Floats F⦄ ⦃dc : Decimals F D⦄ where
  -- FIXExecutionReportFromOrder
  unfoldable pub fix_execution_report_from_order :
      BeginString
      → (exec_id : String) → Order F
      → (account exec_type : String) → (cum_qty : F) → (ord_status message : String) → Symbology
      → (counterparty : String) → (flags : ℕ) → (stop peg : F) → Option (GenericFix D)
  unfolding order_report_args
  fix_execution_report_from_order v exec_id o account exec_type cum_qty ord_status message symbology
        counterparty flags stop peg =
      let args = order_report_args o account exec_type cum_qty ord_status message flags stop peg in
      elim (fix_execution_report v exec_id args symbology counterparty) [
        | none ↦ none
        | some e ↦ some (
            set (Tag.last_shares, dec dc.zero 4)
              (set_if (not (message == "")) (Tag.text, text message) e))
      ]

  -- FIXExecutionReportFromTradeExecutionUpdate
  unfoldable pub fix_execution_report_from_trade :
      BeginString
      → (exec_id : String) → TradeExecutionUpdate F
      → (account cl_ord_id : String)
      → (orig_qty total_fill_qty orig_px stop_px trail_px avg_fill_px : F) → Symbology
      → (counterparty : String) → (exp_tif : ℤ) → (flags : ℕ) → Option (GenericFix D)
  unfolding trade_report_args
  fix_execution_report_from_trade v exec_id t account cl_ord_id orig_qty total_fill_qty orig_px
        stop_px trail_px avg_fill_px symbology counterparty exp_tif flags =
      let args =
        trade_report_args t account cl_ord_id orig_qty total_fill_qty orig_px stop_px trail_px
          avg_fill_px exp_tif flags in
      elim (fix_execution_report v exec_id args symbology counterparty) [
        | none ↦ none
        | some er ↦ some (
            set (Tag.last_px, dec (dc.of_float t.exec_price) 4)
              (set (Tag.comm_type, text CommType.absolute)
                (set (Tag.commission, dec (dc.of_float (magnitude t.fee)) 4) er)))
      ]

-- rejectReasonFromText
unfoldable pub reject_reason_from_text : String → String
reject_reason_from_text message =
    if message == order_not_found_text then CxlRejReason.unknown_order else CxlRejReason.other

module _ {D : Type 0} where
  -- FIXOrderCancelReject
  unfoldable pub fix_order_cancel_reject :
      BeginString
      → (account order_id orig_cl_ord_id cxl_cl_ord_id message : String)
      → (is_cancel_replace : Bool) → Option (GenericFix D)
  unfolding reject_reason_from_text new_message
  fix_order_cancel_reject v account order_id orig_cl_ord_id cxl_cl_ord_id message
        is_cancel_replace =
      let reason = reject_reason_from_text message in
      let order_id' : String = if reason == CxlRejReason.unknown_order then "NONE" else order_id in
      let response_to : String =
        if is_cancel_replace
        then CxlRejResponseTo.order_cancel_replace_request
        else CxlRejResponseTo.order_cancel_request in
      let fields : List (ℕ × Value D) =
        (Tag.cxl_rej_response_to, text CxlRejResponseTo.order_cancel_request)
        ∷ (Tag.ord_status, text OrdStatus.rejected)
        ∷ (Tag.orig_cl_ord_id, text orig_cl_ord_id)
        ∷ (Tag.cl_ord_id, text cxl_cl_ord_id)
        ∷ (Tag.order_id, text order_id')
        ∷ [] in
      elim (new_message v order_cancel_reject fields) [
        | none ↦ none
        | some r ↦ some (
            set (Tag.cxl_rej_response_to, text response_to)
              (set (Tag.text, text message)
                (set (Tag.account, text account) (set (Tag.cxl_rej_reason, text reason) r))))
      ]
