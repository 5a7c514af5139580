-- ===== src/Service/Dispatch.antt =====
-- listen of service/service.go: which handler each message of Bitfinex goes to.
use bfxfixgw.Base.{String, Option, none, some, List, [], ◌∷◌, ◌==◌, if◌then◌else◌}
use bfxfixgw.Base.Floats.{Floats, Decimals}
use bfxfixgw.Base.Maps.{Order as Visits}
use bfxfixgw.Fix.{
  text, fix42, GenericFix, SessionId, business_message_reject, market_data_request_reject,
}
use bfxfixgw.Fix.MdReqRejReason
use bfxfixgw.Fix.Tag
use bfxfixgw.Outbound.{Handled, handled, crashed, of_error}
use bfxfixgw.Outbound.Auth.{AuthEvent, fix_handle_auth}
use bfxfixgw.Outbound.MarketData.{fix_trade_handler, fix_book_snapshot, fix_book_update}
use bfxfixgw.Outbound.Notifications.{fix_notification_handler}
use bfxfixgw.Outbound.Orders.{
  fix_order_update_handler, fix_order_cancel_handler, fix_trade_execution_update_handler,
}
use bfxfixgw.Outbound.Positions.{
  fix_wallet_snapshot_handler, fix_wallet_update_handler, fix_position_snapshot_handler,
  fix_position_update_handler, fix_balance_info_handler, fix_balance_update_handler,
}
use bfxfixgw.Outbound.Snapshots.{fix_order_snapshot_handler}
use bfxfixgw.Peer.Cache.{Ids, reverse_lookup_api_req_ids}
use bfxfixgw.Service.{
  Service, find_peer, put_peer, is_market_data_service, is_order_routing_service,
  business_reject_reason,
}
use bfxfixgw.Service.Messages.{
  Data, ErrorEvent, Ranges, Message, a_notification, an_order_new, an_order_cancel, an_order_update,
  an_info_event, an_auth_event, a_funding_info, a_margin_info_update, a_margin_info_base,
  a_wallet_snapshot, a_wallet_update, a_balance_info, a_balance_update, a_position_snapshot,
  a_position_update, an_order_snapshot, a_subscribe_event, a_book_snapshot, a_book_update,
  a_trade_execution, a_trade_execution_update, a_trade, a_trade_snapshot, an_error_event, an_error,
  unhandled,
}
use bfxfixgw.Symbol.{Symbology}
use bfxfixgw.World.{Env, Peer, sent}

module _ {D : Type 0} where
  unfoldable pub subscription_reject : (fix_req_id : String) → ErrorEvent → GenericFix D
  subscription_reject fix_req_id e = record {
    version = fix42;
    kind = market_data_request_reject;
    fields =
        (Tag.md_request_type, text e.channel)
        ∷ (Tag.text, text e.message)
        ∷ (Tag.md_req_rej_reason, text MdReqRejReason.unknown_symbol)
        ∷ (Tag.md_req_id, text fix_req_id)
        ∷ [];
    group = [];
  }

  unfoldable pub generic_reject : (last_msg_type : String) → ErrorEvent → GenericFix D
  unfolding business_reject_reason
  generic_reject last_msg_type e = record {
    version = fix42;
    kind = business_message_reject;
    fields =
        (Tag.text, text e.message)
        ∷ (Tag.business_reject_reason, text (business_reject_reason e.message))
        ∷ (Tag.ref_msg_type, text last_msg_type)
        ∷ [];
    group = [];
  }

module _ {F D : Type 0} where
  -- A handler of service/websocket/fix_msg.go: without a peer it returns nil.
  unfoldable pub on_peer :
      SessionId → (Peer F D → Handled × Peer F D) → Service F D → Handled × Service F D
  unfolding find_peer put_peer
  on_peer session handler s = elim (find_peer session.name s) [
    | none ↦ (handled, s)
    | some p ↦ let (result, p') = handler p in (result, put_peer session.name p' s)
  ]

  -- if !s.isOrderRoutingService() { continue } else …
  unfoldable pub for_orders :
      SessionId → (Peer F D → Handled × Peer F D) → Service F D → Handled × Service F D
  unfolding on_peer is_order_routing_service
  for_orders session handler s =
      if is_order_routing_service s.service_type then on_peer session handler s else (handled, s)

  -- if !s.isMarketDataService() { continue } else …
  unfoldable pub for_market_data :
      SessionId → (Peer F D → Handled × Peer F D) → Service F D → Handled × Service F D
  unfolding on_peer is_market_data_service
  for_market_data session handler s =
      if is_market_data_service s.service_type then on_peer session handler s else (handled, s)

  -- The market data request that the error of a subscription is about, if the gateway knows it.
  unfoldable pub failed_request :
      Env F D → Visits Ids → SessionId → ErrorEvent → Service F D → Option String
  unfolding find_peer reverse_lookup_api_req_ids
  failed_request env r session e s =
      if e.sub_id == "" then none else elim (find_peer session.name s) [
        | none ↦ none
        | some p ↦
            if env.has_subscription p.log e.sub_id
            then reverse_lookup_api_req_ids r e.sub_id p.cache
            else none
      ]

  -- quickfix.SendToTarget by the loop itself, which logs an error and goes on.
  unfoldable pub report : Env F D → GenericFix D → Service F D → Handled × Service F D
  report env m s = (of_error (env.send s.log m), record s { log = sent m ∷ s.log })

  -- The case *wsv2.ErrorEvent.
  unfoldable pub handle_error_event :
      Env F D → Visits Ids → SessionId → ErrorEvent → Service F D → Handled × Service F D
  unfolding failed_request subscription_reject generic_reject report
  handle_error_event env r session e s = elim (failed_request env r session e s) [
    | some fix_req_id ↦ report env (subscription_reject fix_req_id e) s
    | none ↦ report env (generic_reject s.last_msg_type e) s
  ]

  -- The case *wsv2.AuthEvent.
  unfoldable pub handle_auth_event :
      Env F D → SessionId → AuthEvent → Service F D → Handled × Service F D
  unfolding fix_handle_auth
  handle_auth_event env session auth s =
      let (result, log) = fix_handle_auth env session auth s.log in (result, record s { log = log })

-- How the loop ends: the channel has been closed or has no more messages for now, with a nil
-- message, or with a panic of a handler.
pub data Ending : Type 0 where
  no_more broke panicked : Ending

module _ {F D : Type 0} ⦃fl : Floats F⦄ ⦃dc : Decimals F D⦄ (env : Env F D)
    (symbology : Symbology) where
  -- The body of the loop.
  unfoldable pub dispatch : SessionId → Ranges F → Data F → Service F D → Handled × Service F D
  unfolding for_orders for_market_data handle_error_event handle_auth_event
  dispatch x r (a_notification d) s =
      for_orders x (fix_notification_handler env symbology x r.cancels d) s
  -- FIXOrderNewHandler does nothing.
  dispatch x r (an_order_new o) s = (handled, s)
  dispatch x r (an_order_cancel o) s =
      for_orders x (fix_order_cancel_handler env symbology x r.orders o) s
  dispatch x r (an_order_update o) s = for_orders x (fix_order_update_handler env symbology x o) s
  dispatch x r an_info_event s = (handled, s)
  dispatch x r (an_auth_event a) s = handle_auth_event env x a s
  dispatch x r a_funding_info s = (handled, s)
  dispatch x r a_margin_info_update s = (handled, s)
  dispatch x r a_margin_info_base s = (handled, s)
  dispatch x r (a_wallet_snapshot l) s =
      for_orders x (fix_wallet_snapshot_handler env symbology x l) s
  dispatch x r (a_wallet_update w) s = for_orders x (fix_wallet_update_handler env symbology x w) s
  dispatch x r (a_balance_info b) s = for_orders x (fix_balance_info_handler env symbology x b) s
  dispatch x r (a_balance_update b) s =
      for_orders x (fix_balance_update_handler env symbology x b) s
  dispatch x r (a_position_snapshot l) s =
      for_orders x (fix_position_snapshot_handler env symbology x l) s
  dispatch x r (a_position_update p) s =
      for_orders x (fix_position_update_handler env symbology x p) s
  dispatch x r (an_order_snapshot l) s =
      for_orders x (fix_order_snapshot_handler env symbology x r.executions l) s
  dispatch x r a_subscribe_event s = (handled, s)
  dispatch x r (a_book_snapshot l) s = for_market_data x (fix_book_snapshot env symbology x l) s
  dispatch x r (a_book_update u) s = for_market_data x (fix_book_update env symbology x u) s
  dispatch x r a_trade_execution s = (handled, s)
  dispatch x r (a_trade_execution_update t) s =
      for_orders x (fix_trade_execution_update_handler env symbology x r.orders (r.executions 0) t)
        s
  dispatch x r (a_trade t) s = for_market_data x (fix_trade_handler env symbology x t) s
  dispatch x r (a_trade_snapshot l) s = (handled, s)
  dispatch x r (an_error_event e) s = handle_error_event env r.ids x e s
  dispatch x r (an_error e) s = (handled, s)
  dispatch x r unhandled s = (handled, s)

  -- The loop: an error of a handler is logged, and the loop goes on. `none` is a nil message.
  unfoldable pub listen : List (Option (Message F)) → Service F D → Ending × Service F D
  unfolding dispatch
  listen [] s = (no_more, s)
  listen (none ∷ rest) s = (broke, s)
  listen (some m ∷ rest) s =
      let (result, s') = dispatch m.session m.ranges m.data_of s in
      elim result [ crashed ↦ (panicked, s') | _ ↦ listen rest s' ]
