-- ===== src/Outbound/Orders.antt =====
-- The handlers of executions, updates and cancels of orders in service/websocket/fix_msg.go.
pub mod Cancels
pub mod Fetched
use Prim.Native.String.{◌++◌ as join}
use bfxfixgw.Base.{
  ℕ, String, Bool, true, false, not, ◌&&◌, ◌||◌, Option, none, some, List, [], ◌∷◌, ◌==◌,
  if◌then◌else◌,
}
use bfxfixgw.Base.Floats.{Floats, Decimals}
use bfxfixgw.Base.Maps.{Order as Visits}
use bfxfixgw.Base.Text.{contains}
use bfxfixgw.Base.Text.Decimal.{format_int}
use bfxfixgw.Convert.OrderReports.{fix_execution_report_from_order, fix_execution_report_from_trade}
use bfxfixgw.Convert.Reports.{Order, TradeExecutionUpdate}
use bfxfixgw.Convert.ToFix.{
  exec_type_to_fix, ord_status_to_fix, ord_type_to_fix, side_to_fix, time_in_force_to_fix,
}
use bfxfixgw.Fix.{SessionId}
use bfxfixgw.Fix.OrdStatus
use bfxfixgw.Outbound.{Handled, handled, failed_with, crashed, send_message}
use bfxfixgw.Peer.Cache.{
  Cache, add_order, update_order, add_execution, lookup_by_order_id, lookup_by_cl_ord_id,
}
use bfxfixgw.Peer.Order.{CachedOrder, filled_qty}
use bfxfixgw.Symbol.{Symbology}
use bfxfixgw.World.{Env, Peer, Answer, got, failed, note, asked_order}

module _ {F : Type 0} ⦃fl : Floats F⦄ where
  -- The orders that a session did not enter itself: p.AddOrder(…) with what Bitfinex tells of
  -- `order`, and the side of `amount`. The ClOrdID is its number.
  unfoldable pub add_known_order :
      Order F → (amount : F) → (bfx_user_id : String) → Cache F → Cache F
  add_known_order o amount user c =
      let (tif, exp) = time_in_force_to_fix o.type o.mts_tif in
      let (ot, is_margin) = ord_type_to_fix o.type in
      (add_order (format_int o.cid) o.price o.price_aux_limit o.price_trailing o.amount o.symbol
        user (side_to_fix amount) ot is_margin tif o.mts_tif o.flags c).1

  -- if strings.Contains(ord.Type, "TRAILING") && peg <= 0 { … }
  unfoldable pub peg_of : Order F → Cache F → F
  peg_of o c =
      let peg = o.price_trailing in
      if contains o.type "TRAILING" && (fl.lt peg fl.zero || fl.eq peg fl.zero)
      then elim (lookup_by_cl_ord_id (format_int o.cid) c) [
        | none ↦ peg
        | some cached ↦ cached.trail
      ]
      else peg

module _ {F D : Type 0} ⦃fl : Floats F⦄ ⦃dc : Decimals F D⦄ (env : Env F D) (symbology : Symbology)
    (session : SessionId) where
  -- FIXOrderUpdateHandler
  unfoldable pub fix_order_update_handler : Order F → Peer F D → Handled × Peer F D
  unfolding peg_of
  fix_order_update_handler o p =
      send_message env
        (fix_execution_report_from_order session.begin_string (env.new_uuid p.log) o p.bfx_user_id
          (exec_type_to_fix o.status) fl.zero (ord_status_to_fix o.status) "" symbology
          session.target_comp_id o.flags o.price_aux_limit (peg_of o p.cache))
        p

  -- FIXOrderCancelHandler
  unfoldable pub fix_order_cancel_handler :
      Visits (CachedOrder F) → Order F → Peer F D → Handled × Peer F D
  fix_order_cancel_handler r o p = elim (lookup_by_order_id r (format_int o.id) p.cache) [
    | none ↦ (failed_with (join "could not find OrderID " (format_int o.id)), p)
    | some cached ↦
        let exec_type = exec_type_to_fix o.status in
        let ord_status = ord_status_to_fix o.status in
        if ord_status == OrdStatus.filled || ord_status == OrdStatus.partially_filled
        then (handled, p)
        else send_message env
            (fix_execution_report_from_order session.begin_string (env.new_uuid p.log) o
              p.bfx_user_id exec_type (filled_qty cached) ord_status o.status symbology
              session.target_comp_id cached.flags fl.zero cached.trail)
            p
  ]

  -- The end of FIXTradeExecutionUpdateHandler, with the order that the report is on. `order_id` is
  -- the id of the execution's order.
  unfoldable pub report_execution :
      Visits (CachedOrder F)
      → TradeExecutionUpdate F
      → Option (CachedOrder F)
      → Peer F D
      → Handled × Peer F D
  report_execution r t cached p =
      let (stats, c) =
        add_execution r (format_int t.order_id) (format_int t.id) t.exec_price t.exec_amount
          p.cache in
      elim stats [
        | none ↦ (
          failed_with (join "could not find OrderID " (join (format_int t.order_id) " in cache")),
          record p { cache = c },
        )
        | some (total_fill_qty, avg_fill_px) ↦ elim cached [
          | none ↦ (crashed, record p { cache = c })
          | some o ↦
              send_message env
                (fix_execution_report_from_trade session.begin_string (env.new_uuid p.log) t
                  p.bfx_user_id o.cl_ord_id o.qty total_fill_qty o.px o.stop o.trail avg_fill_px
                  symbology session.target_comp_id o.tif_expiration o.flags)
                (record p { cache = c })
        ]
      ]

  -- FIXTradeExecutionUpdateHandler: an order that is not cached is fetched by its id and added.
  unfoldable pub fix_trade_execution_update_handler :
      Visits (CachedOrder F)
      → Visits (CachedOrder F)
      → TradeExecutionUpdate F
      → Peer F D
      → Handled × Peer F D
  unfolding report_execution add_known_order
  fix_trade_execution_update_handler r r' t p =
      elim (lookup_by_order_id r (format_int t.order_id) p.cache) [
        | some cached ↦ report_execution r' t (some cached) p
        | none ↦
            let p1 = note (asked_order t.order_id) p in
            elim (env.order_by_id p.log t.order_id) [
              | failed e ↦ (handled, p1)
              | got os ↦
                  let c = add_known_order os t.exec_amount p.bfx_user_id p.cache in
                  let (found, c') = update_order (format_int os.cid) (format_int os.id) c in
                  report_execution r' t found (record p1 { cache = c' })
            ]
      ]
