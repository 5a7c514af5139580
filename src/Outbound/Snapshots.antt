-- ===== src/Outbound/Snapshots.antt =====
-- FIXOrderSnapshotHandler of service/websocket/fix_msg.go.
pub mod Unidentified
use Prim.Native.String.{◌++◌ as join}
use bfxfixgw.Base.{ℕ, suc, String, Option, none, some, List, [], ◌∷◌, if◌then◌else◌}
use bfxfixgw.Base.Floats.{Floats, Decimals}
use bfxfixgw.Base.Maps.{Order as Visits}
use bfxfixgw.Base.Text.Decimal.{format_int}
use bfxfixgw.Convert.OrderReports.{fix_execution_report_from_order}
use bfxfixgw.Convert.Reports.{Order, TradeExecutionUpdate}
use bfxfixgw.Fix.{dec, SessionId, GenericFix, set}
use bfxfixgw.Fix.ExecType
use bfxfixgw.Fix.OrdStatus
use bfxfixgw.Fix.Tag
use bfxfixgw.Outbound.{Handled, handled, failed_with, crashed, send_message}
use bfxfixgw.Outbound.Orders.{add_known_order}
use bfxfixgw.Peer.Cache.{Cache, add_execution, update_order}
use bfxfixgw.Peer.Order.{CachedOrder, filled_qty, avg_fill_px}
use bfxfixgw.Symbol.{Symbology}
use bfxfixgw.World.{Env, Peer, got, failed, note, asked_trades}

module _ {F : Type 0} ⦃fl : Floats F⦄ where
  -- The loop over the executions of an order, which ends at the first error; `ranges i` is the
  -- order in which the call for the execution `i` ranges over the cached orders.
  unfoldable pub add_executions :
      (ranges : ℕ → Visits (CachedOrder F))
      → ℕ
      → List (TradeExecutionUpdate F)
      → Cache F
      → Option String × Cache F
  add_executions ranges i [] c = (none, c)
  add_executions ranges i (tu ∷ rest) c =
      let (stats, c') =
        add_execution (ranges i) (format_int tu.order_id) (format_int tu.id) tu.exec_price
          tu.exec_amount c in
      elim stats [
        | none ↦
            (some (join "could not find OrderID " (join (format_int tu.order_id) " in cache")), c')
        | some s ↦ add_executions ranges (suc i) rest c'
      ]

  abbrev pub trades_or_none : Option (List (TradeExecutionUpdate F)) → List (TradeExecutionUpdate F)
  trades_or_none none = []
  trades_or_none (some l) = l

module _ {F D : Type 0} ⦃fl : Floats F⦄ ⦃dc : Decimals F D⦄ (env : Env F D) (symbology : Symbology)
    (session : SessionId) where
  -- The order gets its id and is reported.
  unfoldable pub report_snapshot_order : Order F → Peer F D → Handled × Peer F D
  report_snapshot_order o p =
      let (cached, c) = update_order (format_int o.cid) (format_int o.id) p.cache in
      let p' : Peer F D = record p { cache = c } in
      elim cached [
        | none ↦ (crashed, p')
        | some cache ↦
            let report : Option (GenericFix D) =
              elim (fix_execution_report_from_order session.begin_string (env.new_uuid p.log) o
                p.bfx_user_id ExecType.new (filled_qty cache) OrdStatus.new o.status symbology
                session.target_comp_id o.flags o.price_aux_limit o.price_trailing) [
                  | none ↦ none
                  | some er ↦
                      if fl.is_finite (avg_fill_px cache)
                      then some (set (Tag.avg_px, dec (dc.of_float (avg_fill_px cache)) 4) er)
                      else none
                ] in
            send_message env report p'
      ]

  -- The rest of a round, with the executions of the order.
  unfoldable pub finish_snapshot_order :
      (ranges : ℕ → Visits (CachedOrder F))
      → List (TradeExecutionUpdate F)
      → Order F
      → Peer F D
      → Handled × Peer F D
  unfolding add_executions report_snapshot_order
  finish_snapshot_order ranges trades o p =
      let (error, c) = add_executions ranges 0 trades p.cache in
      let p' : Peer F D = record p { cache = c } in
      elim error [ some e ↦ (failed_with e, p') | none ↦ report_snapshot_order o p' ]

  -- FIXOrderSnapshotHandler: an order whose executions cannot be fetched is skipped, and the loop
  -- ends with the first other one.
  unfoldable pub fix_order_snapshot_handler :
      (ranges : ℕ → Visits (CachedOrder F)) → List (Order F) → Peer F D → Handled × Peer F D
  unfolding add_known_order finish_snapshot_order
  fix_order_snapshot_handler ranges [] p = (handled, p)
  fix_order_snapshot_handler ranges (o ∷ rest) p =
      let p1 : Peer F D = record p { cache = add_known_order o o.amount p.bfx_user_id p.cache } in
      let p2 = note (asked_trades o.symbol o.id) p1 in
      elim (env.order_trades p1.log o.symbol o.id) [
        | failed e ↦ fix_order_snapshot_handler ranges rest p2
        | got trades ↦ finish_snapshot_order ranges (trades_or_none trades) o p2
      ]
