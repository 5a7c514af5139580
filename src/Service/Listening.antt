-- ===== src/Service/Listening.antt =====
-- The loop of service/service.go in a market data service.
use mathlib.Core.Path.{subst}
use bfxfixgw.Base.{
  ◌≡◌, refl, ◌∙◌, ap, true, false, Option, none, some, Option-cases, Bool-cases, List, [], ◌∷◌, inl,
  inr, ◌==◌,
}
use bfxfixgw.Base.Floats.{Floats, Decimals}
use bfxfixgw.Base.Maps.{Order as Visits}
use bfxfixgw.Convert.Fields.{IsVersion}
use bfxfixgw.Convert.Reports.{new_message}
use bfxfixgw.Fix.{SessionId, logout}
use bfxfixgw.Outbound.{Handled, Handled-cases}
use bfxfixgw.Outbound.Auth.{AuthEvent, fix_handle_auth, send_logout}
use bfxfixgw.Outbound.Positions.{}
use bfxfixgw.Outbound.Survives.{Survives, of_error-Survives}
use bfxfixgw.Outbound.Survives.Handlers.{
  fix_trade_handler-Survives, fix_book_update-Survives, fix_book_snapshot-Survives,
}
use bfxfixgw.Peer.Cache.{Ids}
use bfxfixgw.Service.{
  Service, find_peer, put_peer, market_data_service, is_market_data_service,
  is_order_routing_service,
}
use bfxfixgw.Service.Dispatch.{
  on_peer, for_orders, for_market_data, handle_error_event, handle_auth_event, failed_request,
  report, dispatch, listen, Ending, no_more, broke,
}
use bfxfixgw.Service.Messages.{
  Data, ErrorEvent, Ranges, Message, a_notification, an_order_new, an_order_cancel, an_order_update,
  an_info_event, an_auth_event, a_funding_info, a_margin_info_update, a_margin_info_base,
  a_wallet_snapshot, a_wallet_update, a_balance_info, a_balance_update, a_position_snapshot,
  a_position_update, an_order_snapshot, a_subscribe_event, a_book_snapshot, a_book_update,
  a_trade_execution, a_trade_execution_update, a_trade, a_trade_snapshot, an_error_event, an_error,
  unhandled,
}
use bfxfixgw.Symbol.{Symbology}
use bfxfixgw.World.{Env, Peer}

module _ {F D : Type 0} (session : SessionId) where
  -- The loop goes on, in a market data service.
  abbrev GoesOn : Handled × Service F D → Type 0
  GoesOn (result, s) = Survives result × (s.service_type ≡ market_data_service)

  on_peer-Survives :
      (handler : Peer F D → Handled × Peer F D) (s : Service F D)
      → ((p : Peer F D) → Survives (handler p).0)
      → Survives (on_peer session handler s).0
  unfolding on_peer
  on_peer-Survives handler s h = elim (Option-cases (find_peer session.name s)) [
    | inl missing ↦ rw (missing, on_peer) tt
    | inr (p, hit) ↦ rw (hit, on_peer) (h p)
  ]

  -- The messages about orders pass a market data service by.
  skipped-GoesOn :
      (handler : Peer F D → Handled × Peer F D) (s : Service F D)
      → s.service_type ≡ market_data_service
      → GoesOn (for_orders session handler s)
  unfolding for_orders is_order_routing_service
  skipped-GoesOn handler s market =
      let skip : is_order_routing_service s.service_type ≡ false =
        ap is_order_routing_service market in
      rw (skip, for_orders) (tt, market)

  on_peer-type :
      (handler : Peer F D → Handled × Peer F D) (s : Service F D)
      → (on_peer session handler s).1.service_type ≡ s.service_type
  unfolding on_peer put_peer
  on_peer-type handler s = elim (Option-cases (find_peer session.name s)) [
    | inl missing ↦ rw (missing, on_peer) refl
    | inr (p, hit) ↦ rw (hit, on_peer) refl
  ]

  for_market_data-GoesOn :
      (handler : Peer F D → Handled × Peer F D) (s : Service F D)
      → s.service_type ≡ market_data_service
      → ((p : Peer F D) → Survives (handler p).0)
      → GoesOn (for_market_data session handler s)
  unfolding for_market_data is_market_data_service
  for_market_data-GoesOn handler s market h =
      let take : is_market_data_service s.service_type ≡ true = ap is_market_data_service market in
      rw (take, for_market_data) (on_peer-Survives handler s h, on_peer-type handler s ∙ market)

  handle_error_event-GoesOn :
      (env : Env F D) (r : Visits Ids) (e : ErrorEvent) (s : Service F D)
      → s.service_type ≡ market_data_service
      → GoesOn (handle_error_event env r session e s)
  unfolding handle_error_event report
  handle_error_event-GoesOn env r e s market =
      elim (Option-cases (failed_request env r session e s)) [
        | inl unknown ↦
            rw (unknown, handle_error_event) (of_error-Survives (env.send s.log _), market)
        | inr (id, known) ↦
            rw (known, handle_error_event) (of_error-Survives (env.send s.log _), market)
      ]

  handle_auth_event-GoesOn :
      (env : Env F D) (a : AuthEvent) (s : Service F D)
      → s.service_type ≡ market_data_service
      → GoesOn (handle_auth_event env session a s)
  unfolding handle_auth_event fix_handle_auth send_logout
  handle_auth_event-GoesOn env a s market = elim (Bool-cases (a.status == "FAILED")) [
    | inr fine ↦ rw (fine, fix_handle_auth) (tt, market)
    | inl failing ↦ elim (Option-cases (new_message {D = D} session.begin_string logout [])) [
      | inl unsupported ↦ rw (failing, fix_handle_auth) (rw (unsupported, send_logout) (tt, market))
      | inr (m, built) ↦
          rw (failing, fix_handle_auth)
            (rw (built, send_logout) (of_error-Survives (env.send s.log _), market))
    ]
  ]

module _ {F D : Type 0} ⦃fl : Floats F⦄ ⦃dc : Decimals F D⦄ (env : Env F D)
    (symbology : Symbology) where
  dispatch-GoesOn :
      (x : SessionId) (r : Ranges F) (d : Data F) (s : Service F D)
      → IsVersion x.begin_string
      → s.service_type ≡ market_data_service
      → GoesOn {D = D} x (dispatch env symbology x r d s)
  unfolding dispatch
  dispatch-GoesOn x r (a_notification d) s v market = skipped-GoesOn x _ s market
  dispatch-GoesOn x r (an_order_new o) s v market = (tt, market)
  dispatch-GoesOn x r (an_order_cancel o) s v market = skipped-GoesOn x _ s market
  dispatch-GoesOn x r (an_order_update o) s v market = skipped-GoesOn x _ s market
  dispatch-GoesOn x r an_info_event s v market = (tt, market)
  dispatch-GoesOn x r (an_auth_event a) s v market = handle_auth_event-GoesOn x env a s market
  dispatch-GoesOn x r a_funding_info s v market = (tt, market)
  dispatch-GoesOn x r a_margin_info_update s v market = (tt, market)
  dispatch-GoesOn x r a_margin_info_base s v market = (tt, market)
  dispatch-GoesOn x r (a_wallet_snapshot l) s v market = skipped-GoesOn x _ s market
  dispatch-GoesOn x r (a_wallet_update w) s v market = skipped-GoesOn x _ s market
  dispatch-GoesOn x r (a_balance_info b) s v market = skipped-GoesOn x _ s market
  dispatch-GoesOn x r (a_balance_update b) s v market = skipped-GoesOn x _ s market
  dispatch-GoesOn x r (a_position_snapshot l) s v market = skipped-GoesOn x _ s market
  dispatch-GoesOn x r (a_position_update p) s v market = skipped-GoesOn x _ s market
  dispatch-GoesOn x r (an_order_snapshot l) s v market = skipped-GoesOn x _ s market
  dispatch-GoesOn x r a_subscribe_event s v market = (tt, market)
  dispatch-GoesOn x r (a_book_snapshot l) s v market =
      for_market_data-GoesOn x _ s market (fix_book_snapshot-Survives env symbology x v l)
  dispatch-GoesOn x r (a_book_update u) s v market =
      for_market_data-GoesOn x _ s market (fix_book_update-Survives env symbology x v u)
  dispatch-GoesOn x r a_trade_execution s v market = (tt, market)
  dispatch-GoesOn x r (a_trade_execution_update t) s v market = skipped-GoesOn x _ s market
  dispatch-GoesOn x r (a_trade t) s v market =
      for_market_data-GoesOn x _ s market (fix_trade_handler-Survives env symbology x v t)
  dispatch-GoesOn x r (a_trade_snapshot l) s v market = (tt, market)
  dispatch-GoesOn x r (an_error_event e) s v market =
      handle_error_event-GoesOn x env r.ids e s market
  dispatch-GoesOn x r (an_error e) s v market = (tt, market)
  dispatch-GoesOn x r unhandled s v market = (tt, market)

  -- The messages before the first nil, and how the loop is to end after them.
  abbrev pub before_nil : List (Option (Message F)) → List (Message F)
  before_nil [] = []
  before_nil (none ∷ rest) = []
  before_nil (some m ∷ rest) = m ∷ before_nil rest

  abbrev pub ending : List (Option (Message F)) → Ending
  ending [] = no_more
  ending (none ∷ rest) = broke
  ending (some m ∷ rest) = ending rest

  abbrev pub handle_all : List (Message F) → Service F D → Service F D
  handle_all [] s = s
  handle_all (m ∷ rest) s =
      handle_all rest (dispatch env symbology m.session m.ranges m.data_of s).1

  -- All sessions speak a version of FIX that the gateway knows.
  abbrev pub AllSpoken : List (Message F) → Type 0
  AllSpoken [] = Unit
  AllSpoken (m ∷ rest) = IsVersion m.session.begin_string × AllSpoken rest

  -- Whatever Bitfinex sends, and whatever fails, the loop of a market data service never panics, if
  -- each message is for a session of a version of FIX that the gateway speaks: it hands on every
  -- message up to the first nil, in order, and ends only there or with the last message. The
  -- numbers of trades and of books, which are decoded from JSON, are taken to be finite.
  pub listen_handles_all :
      (messages : List (Option (Message F))) (s : Service F D)
      → AllSpoken (before_nil messages)
      → s.service_type ≡ market_data_service
      → listen env symbology messages s ≡ (ending messages, handle_all (before_nil messages) s)
  unfolding listen
  listen_handles_all [] s v market = refl
  listen_handles_all (none ∷ rest) s v market = refl
  listen_handles_all (some m ∷ rest) s v market =
      let (here, still) = dispatch-GoesOn m.session m.ranges m.data_of s v.0 market in
      let s' = (dispatch env symbology m.session m.ranges m.data_of s).1 in
      let w = listen_handles_all rest s' v.1 still in
      elim (Handled-cases (dispatch env symbology m.session m.ranges m.data_of s).0) [
        | inl fine ↦ rw (fine, listen) w
        | inr (inl (e, error)) ↦ rw (error, listen) w
        | inr (inr crash) ↦ absurd (subst Survives crash here)
      ]
