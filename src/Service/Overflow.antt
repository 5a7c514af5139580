-- ===== src/Service/Overflow.antt =====
-- What an execution whose total overflows does to the loop of service/service.go.
use bfxfixgw.Base.{String, ◌≡◌, refl, ap, true, false, some, none, Option, List, ◌∷◌, inl, inr}
use bfxfixgw.Base.Floats.{Floats, Decimals}
use bfxfixgw.Base.Text.Decimal.{format_int}
use bfxfixgw.Convert.Finite.{convertible-cases}
use bfxfixgw.Convert.OrderReports.{fix_execution_report_from_trade, trade_report_args}
use bfxfixgw.Convert.Reports.{TradeExecutionUpdate, ReportArgs, fix_execution_report}
use bfxfixgw.Fix.{BeginString, SessionId}
use bfxfixgw.Outbound.{crashed, send_message}
use bfxfixgw.Outbound.Orders.{report_execution, fix_trade_execution_update_handler}
use bfxfixgw.Peer.Cache.{add_execution, lookup_by_order_id}
use bfxfixgw.Peer.Order.{CachedOrder}
use bfxfixgw.Service.{Service, order_routing_service, is_order_routing_service, find_peer}
use bfxfixgw.Service.Dispatch.{dispatch, listen, panicked, on_peer, for_orders}
use bfxfixgw.Service.Messages.{Ranges, Message, a_trade_execution_update}
use bfxfixgw.Symbol.{Symbology}
use bfxfixgw.World.{Env, Peer}

module _ {F D : Type 0} ⦃fl : Floats F⦄ ⦃dc : Decimals F D⦄ where
  not_finite-none :
      (v : BeginString) (exec_id : String) (a : ReportArgs F) (symbology : Symbology)
      (counterparty : String)
      → fl.is_finite a.cum_qty ≡ false
      → fix_execution_report {D = D} v exec_id a symbology counterparty ≡ none
  unfolding fix_execution_report
  not_finite-none v exec_id a symbology counterparty over = elim (convertible-cases a) [
    | inl (good, finite) ↦ absurd (cc (finite.cum, over))
    | inr (bad, not_finite) ↦ rw (bad, fix_execution_report) refl
  ]

  module _ (env : Env F D) (symbology : Symbology) (session : SessionId) (r : Ranges F)
      (t : TradeExecutionUpdate F) where
    report_execution-crashed :
        (p : Peer F D) (o : CachedOrder F) (total avg : F)
        → (add_execution
            (r.executions 0)
            (format_int t.order_id)
            (format_int t.id)
            t.exec_price
            t.exec_amount
            p.cache).0
          ≡ some (total, avg)
        → fl.is_finite total ≡ false
        → (report_execution env symbology session (r.executions 0) t (some o) p).0 ≡ crashed
    unfolding report_execution fix_execution_report_from_trade send_message
    report_execution-crashed p o total avg adds over =
        let unbuilt =
          not_finite-none session.begin_string (env.new_uuid p.log)
            (trade_report_args t p.bfx_user_id o.cl_ord_id o.qty total o.px o.stop o.trail avg
              o.tif_expiration o.flags)
            symbology session.target_comp_id over in
        rw (adds, report_execution)
          (rw (unbuilt, fix_execution_report_from_trade, send_message) refl)

    -- In an order routing service, an execution of a cached order of a session whose total fill is
    -- then not finite ends the loop with a panic, whatever messages follow: the conversion of the
    -- total to a decimal panics.
    pub overflow_ends_listen :
        (rest : List (Option (Message F))) (s : Service F D) (p : Peer F D) (o : CachedOrder F)
        (total avg : F)
        → s.service_type ≡ order_routing_service
        → find_peer session.name s ≡ some p
        → lookup_by_order_id r.orders (format_int t.order_id) p.cache ≡ some o
        → (add_execution
            (r.executions 0)
            (format_int t.order_id)
            (format_int t.id)
            t.exec_price
            t.exec_amount
            p.cache).0
          ≡ some (total, avg)
        → fl.is_finite total ≡ false
        → (listen env symbology
            (some (record { data_of = a_trade_execution_update t; session = session; ranges = r })
              ∷ rest)
            s).0
          ≡ panicked
    unfolding listen dispatch for_orders on_peer fix_trade_execution_update_handler
        is_order_routing_service
    overflow_ends_listen rest s p o total avg orders hit known adds over =
        let take : is_order_routing_service s.service_type ≡ true =
          ap is_order_routing_service orders in
        let crash = report_execution-crashed p o total avg adds over in
        let here : (dispatch env symbology session r (a_trade_execution_update t) s).0 ≡ crashed =
          rw (take, dispatch, for_orders)
            (rw (hit, on_peer) (rw (known, fix_trade_execution_update_handler) crash)) in
        rw (here, listen) refl
