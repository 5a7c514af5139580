-- ===== src/Outbound/Notifications.antt =====
-- FIXNotificationHandler of service/websocket/fix_msg.go.
pub mod Acknowledged
use Prim.Native.String.{◌++◌ as join}
use bfxfixgw.Base.{ℕ, String, false, not, ◌&&◌, Option, none, some, ◌==◌, if◌then◌else◌}
use bfxfixgw.Base.Floats.{Floats, Decimals}
use bfxfixgw.Base.Maps.{Order as Visits}
use bfxfixgw.Base.Text.{contains}
use bfxfixgw.Base.Text.Decimal.{format_int}
use bfxfixgw.Convert.OrderReports.{fix_execution_report_from_order, fix_order_cancel_reject}
use bfxfixgw.Convert.Reports.{Order, ReportArgs, fix_execution_report, set_if}
use bfxfixgw.Convert.ToFix.{mts_to_time}
use bfxfixgw.Fix.{dec, SessionId, GenericFix}
use bfxfixgw.Fix.ExecType
use bfxfixgw.Fix.OrdStatus
use bfxfixgw.Fix.Tag
use bfxfixgw.Outbound.{Handled, handled, failed_with, send_message}
use bfxfixgw.Outbound.Orders.{add_known_order}
use bfxfixgw.Peer.Cache.{
  Cache, CachedCancel, update_order, lookup_by_cl_ord_id, lookup_cancel_by_orig_cl_ord_id,
}
use bfxfixgw.Peer.Order.{CachedOrder, filled_qty, avg_fill_px}
use bfxfixgw.Symbol.{Symbology}
use bfxfixgw.World.{Env, Peer}

-- The NotifyInfo of a notification, and the notification.
pub data NotifyInfo (F : Type 0) : Type 0 where
  order_cancel : Order F → NotifyInfo F
  order_new : Order F → NotifyInfo F
  other_info : NotifyInfo F

pub record Notification (F : Type 0) : Type 0 where
  pub notify_info : NotifyInfo F
  pub status : String
  pub text : String

module _ {F : Type 0} ⦃fl : Floats F⦄ where
  -- The order that Bitfinex has acknowledged gets its id, and is added if the session does not know
  -- it.
  unfoldable pub acknowledge : Order F → (bfx_user_id : String) → Cache F → Cache F
  unfolding add_known_order
  acknowledge o user c =
      let (found, c') = update_order (format_int o.cid) (format_int o.id) c in
      elim found [
        | some order ↦ c'
        | none ↦
            (update_order (format_int o.cid) (format_int o.id)
              (add_known_order o o.amount user c)).1
      ]

  -- The arguments of the report that a cancel is pending.
  unfoldable pub pending_cancel_args : CachedOrder F → (text : String) → ReportArgs F
  pending_cancel_args orig text = record {
    symbol = orig.symbol;
    cl_ord_id = orig.cl_ord_id;
    order_id = orig.order_id;
    account = orig.account;
    exec_type = ExecType.pending_cancel;
    side = orig.side;
    orig_qty = orig.qty;
    this_qty = fl.zero;
    cum_qty = filled_qty orig;
    px = orig.px;
    stop = orig.stop;
    trail = orig.trail;
    avg_px = avg_fill_px orig;
    ord_status = OrdStatus.pending_cancel;
    ord_type = orig.order_type;
    is_margin = orig.is_margin;
    tif = orig.time_in_force;
    exp = (mts_to_time orig.tif_expiration).0;
    text = text;
    flags = orig.flags;
  }

  -- The peg and the stop of the report on a new order.
  unfoldable pub peg_and_stop : Order F → Cache F → F × F
  peg_and_stop o c =
      if contains o.type "TRAILING"
      then (
        elim (lookup_by_cl_ord_id (format_int o.cid) c) [ none ↦ fl.zero | some orig ↦ orig.trail ],
        o.price,
      )
      else (fl.zero, o.price_aux_limit)

module _ {F D : Type 0} ⦃fl : Floats F⦄ ⦃dc : Decimals F D⦄ (env : Env F D) (symbology : Symbology)
    (session : SessionId) where
  -- The case *bitfinex.OrderCancel.
  unfoldable pub notify_cancel :
      Visits CachedCancel → Order F → (status text : String) → Peer F D → Handled × Peer F D
  unfolding pending_cancel_args
  notify_cancel r o status text p =
      let orig_cl_ord_id = format_int o.cid in
      if status == "ERROR"
      then (let cxl_cl_ord_id : String =
            elim (lookup_cancel_by_orig_cl_ord_id r orig_cl_ord_id p.cache) [
              | none ↦ orig_cl_ord_id
              | some cancel ↦ cancel.cl_ord_id
            ] in
          send_message env
            (fix_order_cancel_reject session.begin_string p.bfx_user_id (format_int o.id)
              orig_cl_ord_id cxl_cl_ord_id text false)
            p)
      else if status == "SUCCESS"
      then elim (lookup_by_cl_ord_id orig_cl_ord_id p.cache) [
        | none ↦ (failed_with (join "could not find an order with ClOrdID " orig_cl_ord_id), p)
        | some orig ↦
            let report : Option (GenericFix D) =
              elim (fix_execution_report session.begin_string (env.new_uuid p.log)
                (pending_cancel_args orig text) symbology session.target_comp_id) [
                  | none ↦ none
                  | some er ↦
                      if fl.lt fl.zero orig.px && not (fl.is_finite orig.px)
                      then none
                      else some (
                          set_if (fl.lt fl.zero orig.px) (Tag.price, dec (dc.of_float orig.px) 4)
                            er)
                ] in
            send_message env report p
      ]
      else (handled, p)

  -- The case *bitfinex.OrderNew.
  unfoldable pub notify_new : Order F → (status text : String) → Peer F D → Handled × Peer F D
  unfolding acknowledge peg_and_stop
  notify_new o status text p =
      let refused = status == "ERROR" in
      let ord_status : String = if refused then OrdStatus.rejected else OrdStatus.new in
      let exec_type : String = if refused then ExecType.rejected else ExecType.new in
      let message : String = if refused then text else "" in
      let c : Cache F = if refused then p.cache else acknowledge o p.bfx_user_id p.cache in
      let flags : ℕ = elim (lookup_by_cl_ord_id (format_int o.cid) c) [
        | none ↦ o.flags
        | some orig ↦ orig.flags
      ] in
      let (peg, stop) = peg_and_stop o c in
      send_message env
        (fix_execution_report_from_order session.begin_string (env.new_uuid p.log) o p.bfx_user_id
          exec_type fl.zero ord_status message symbology session.target_comp_id flags stop peg)
        (record p { cache = c })

  -- FIXNotificationHandler
  unfoldable pub fix_notification_handler :
      Visits CachedCancel → Notification F → Peer F D → Handled × Peer F D
  unfolding notify_cancel notify_new
  fix_notification_handler r d p = elim d.notify_info [
    | order_cancel o ↦ notify_cancel r o d.status d.text p
    | order_new o ↦ notify_new o d.status d.text p
    | other_info ↦ (handled, p)
  ]
