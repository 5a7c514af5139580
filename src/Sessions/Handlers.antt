-- ===== src/Sessions/Handlers.antt =====
-- The loop of a service keeps what the handlers of its type keep of a cache.
use mathlib.Core.Path.{subst}
use bfxfixgw.Base.{refl, sym, Option-cases, inl, inr}
use bfxfixgw.Base.Floats.{Floats, Decimals}
use bfxfixgw.Base.Maps.{Order as Visits}
use bfxfixgw.Application.{}
use bfxfixgw.Application.Requests.{}
use bfxfixgw.Fix.{SessionId}
use bfxfixgw.Inbound.Evolves.{}
use bfxfixgw.Outbound.Evolves.Orders.{
  Evolves-fix_trade_execution_update_handler, Evolves-fix_notification_handler,
  Evolves-fix_order_snapshot_handler,
}
use bfxfixgw.Outbound.Evolves.Unchanged.{
  cache-fix_wallet_snapshot_handler, cache-fix_wallet_update_handler,
  cache-fix_balance_info_handler, cache-fix_balance_update_handler,
  cache-fix_position_snapshot_handler, cache-fix_position_update_handler,
  cache-fix_order_update_handler, cache-fix_order_cancel_handler, cache-fix_trade_handler,
  cache-fix_book_snapshot, cache-fix_book_update,
}
use bfxfixgw.Outbound.Positions.{}
use bfxfixgw.Peer.Cache.{Cache, Ids}
use bfxfixgw.Peer.Cache.Evolves.{unchanged}
use bfxfixgw.Service.{Service}
use bfxfixgw.Service.Dispatch.{
  handle_error_event, handle_auth_event, failed_request, report, dispatch,
}
use bfxfixgw.Service.Messages.{
  Data, ErrorEvent, Ranges, a_notification, an_order_new, an_order_cancel, an_order_update,
  an_info_event, an_auth_event, a_funding_info, a_margin_info_update, a_margin_info_base,
  a_wallet_snapshot, a_wallet_update, a_balance_info, a_balance_update, a_position_snapshot,
  a_position_update, an_order_snapshot, a_subscribe_event, a_book_snapshot, a_book_update,
  a_trade_execution, a_trade_execution_update, a_trade, a_trade_snapshot, an_error_event, an_error,
  unhandled,
}
use bfxfixgw.Symbol.{Symbology}
use bfxfixgw.World.{Env}
use bfxfixgw.Sessions.{AreVisits}
use bfxfixgw.Sessions.Keeps.{IsKept, Keeps, for_orders-Keeps, for_market_data-Keeps}

module _ {F D : Type 0} ⦃fl : Floats F⦄ ⦃dc : Decimals F D⦄ (P : Cache F → Type 0) where
  handle_error_event-Keeps :
      (env : Env F D) (r : Visits Ids) (session : SessionId) (e : ErrorEvent) (s : Service F D)
      → Keeps P s (handle_error_event env r session e s).1
  unfolding handle_error_event report
  handle_error_event-Keeps env r session e s =
      elim (Option-cases (failed_request env r session e s)) [
        | inl unknown ↦ rw (unknown, handle_error_event) (refl, λ x. x)
        | inr (id, known) ↦ rw (known, handle_error_event) (refl, λ x. x)
      ]

  module _ (env : Env F D) (symbology : Symbology) (session : SessionId) where
    pub dispatch-Keeps :
        (r : Ranges F) (d : Data F) (s : Service F D)
        → AreVisits r
        → IsKept D s.service_type P
        → Keeps P s (dispatch env symbology session r d s).1
    unfolding dispatch handle_auth_event
    dispatch-Keeps r (a_notification d) s o k = for_orders-Keeps P session _ s (λ t p h.
        k.evolves t p.cache _ h
          (Evolves-fix_notification_handler env symbology session r.cancels d p))
    dispatch-Keeps r (an_order_new x) s o k = (refl, λ e. e)
    dispatch-Keeps r (an_order_cancel x) s o k =
        for_orders-Keeps P session _ s
          (λ t p. subst P (sym (cache-fix_order_cancel_handler env symbology session r.orders x p)))
    dispatch-Keeps r (an_order_update x) s o k =
        for_orders-Keeps P session _ s
          (λ t p. subst P (sym (cache-fix_order_update_handler env symbology session x p)))
    dispatch-Keeps r an_info_event s o k = (refl, λ e. e)
    dispatch-Keeps r (an_auth_event a) s o k = (refl, λ e. e)
    dispatch-Keeps r a_funding_info s o k = (refl, λ e. e)
    dispatch-Keeps r a_margin_info_update s o k = (refl, λ e. e)
    dispatch-Keeps r a_margin_info_base s o k = (refl, λ e. e)
    dispatch-Keeps r (a_wallet_snapshot l) s o k =
        for_orders-Keeps P session _ s
          (λ t p. subst P (sym (cache-fix_wallet_snapshot_handler env symbology session l p)))
    dispatch-Keeps r (a_wallet_update x) s o k =
        for_orders-Keeps P session _ s
          (λ t p. subst P (sym (cache-fix_wallet_update_handler env symbology session x p)))
    dispatch-Keeps r (a_balance_info b) s o k =
        for_orders-Keeps P session _ s
          (λ t p. subst P (sym (cache-fix_balance_info_handler env symbology session b p)))
    dispatch-Keeps r (a_balance_update b) s o k =
        for_orders-Keeps P session _ s
          (λ t p. subst P (sym (cache-fix_balance_update_handler env symbology session b p)))
    dispatch-Keeps r (a_position_snapshot l) s o k =
        for_orders-Keeps P session _ s
          (λ t p. subst P (sym (cache-fix_position_snapshot_handler env symbology session l p)))
    dispatch-Keeps r (a_position_update x) s o k =
        for_orders-Keeps P session _ s
          (λ t p. subst P (sym (cache-fix_position_update_handler env symbology session x p)))
    dispatch-Keeps r (an_order_snapshot l) s o k = for_orders-Keeps P session _ s (λ t p h.
        k.evolves t p.cache _ h (
          Evolves-fix_order_snapshot_handler env symbology session r.executions l p.cache p
            o.executions unchanged))
    dispatch-Keeps r a_subscribe_event s o k = (refl, λ e. e)
    dispatch-Keeps r (a_book_snapshot l) s o k =
        for_market_data-Keeps P session _ s (cache-fix_book_snapshot env symbology session l)
    dispatch-Keeps r (a_book_update u) s o k =
        for_market_data-Keeps P session _ s (cache-fix_book_update env symbology session u)
    dispatch-Keeps r a_trade_execution s o k = (refl, λ e. e)
    dispatch-Keeps r (a_trade_execution_update x) s o k = for_orders-Keeps P session _ s (λ t p h.
        k.evolves t p.cache _ h (
          Evolves-fix_trade_execution_update_handler env symbology session r.orders (r.executions 0)
            x p (o.executions 0)))
    dispatch-Keeps r (a_trade x) s o k =
        for_market_data-Keeps P session _ s (cache-fix_trade_handler env symbology session x)
    dispatch-Keeps r (a_trade_snapshot l) s o k = (refl, λ e. e)
    dispatch-Keeps r (an_error_event e) s o k = handle_error_event-Keeps env r.ids session e s
    dispatch-Keeps r (an_error e) s o k = (refl, λ x. x)
    dispatch-Keeps r unhandled s o k = (refl, λ e. e)
