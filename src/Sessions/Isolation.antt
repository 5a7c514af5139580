-- ===== src/Sessions/Isolation.antt =====
-- What happens to one session leaves the others alone.
use bfxfixgw.Base.{
  String, Bool, true, false, ◌≡◌, ◌≢◌, refl, ◌∙◌, List, eq_iff, arith, Option-cases, Bool-cases,
  inl, inr,
}
use bfxfixgw.Base.Floats.{Floats, Decimals}
use bfxfixgw.Base.Maps.{lookup, lookup-delete}
use bfxfixgw.Application.{
  from_admin, read_logon, returned, credentials, connect_peer, on_disconnect, on_logout, logon,
  logout_session, Credentials, Logon, bool_or_false,
}
use bfxfixgw.Application.Requests.{
  Request, new_order_single, order_cancel_replace_request, order_cancel_request,
  order_status_request, market_data_request, Route, routes, Surroundings, handle_request, from_app,
}
use bfxfixgw.Fix.{FieldMap, SessionId, Result, Result-cases}
use bfxfixgw.Fix.Tag
use bfxfixgw.Outbound.{Handled-cases}
use bfxfixgw.Service.{Service, add_peer, find_peer, put_peer, remove_peer}
use bfxfixgw.Service.Dispatch.{handle_auth_event, dispatch}
use bfxfixgw.Service.Messages.{
  Data, Ranges, a_notification, an_order_new, an_order_cancel, an_order_update, an_info_event,
  an_auth_event, a_funding_info, a_margin_info_update, a_margin_info_base, a_wallet_snapshot,
  a_wallet_update, a_balance_info, a_balance_update, a_position_snapshot, a_position_update,
  an_order_snapshot, a_subscribe_event, a_book_snapshot, a_book_update, a_trade_execution,
  a_trade_execution_update, a_trade, a_trade_snapshot, an_error_event, an_error, unhandled,
}
use bfxfixgw.Sessions.{Happens, admin_message, app_message, logout_of, disconnect_of, data_message}
use bfxfixgw.Symbol.{Symbology}
use bfxfixgw.World.{Env}
use bfxfixgw.Sessions.Others.{
  HasPeerOf, put_peer-HasPeerOf, for_orders-HasPeerOf, for_market_data-HasPeerOf,
  with_peer-HasPeerOf, handle_error_event-HasPeerOf,
}

module _ {F D : Type 0} ⦃fl : Floats F⦄ ⦃dc : Decimals F D⦄ (name : String) (session : SessionId)
    (other : name ≢ session.name) where
  dispatch-HasPeerOf :
      (env : Env F D) (symbology : Symbology) (r : Ranges F) (d : Data F) (s : Service F D)
      → HasPeerOf name s (dispatch env symbology session r d s).1
  unfolding dispatch handle_auth_event find_peer
  dispatch-HasPeerOf env symbology r (a_notification d) s =
      for_orders-HasPeerOf name session other _ s
  dispatch-HasPeerOf env symbology r (an_order_new x) s = refl
  dispatch-HasPeerOf env symbology r (an_order_cancel x) s =
      for_orders-HasPeerOf name session other _ s
  dispatch-HasPeerOf env symbology r (an_order_update x) s =
      for_orders-HasPeerOf name session other _ s
  dispatch-HasPeerOf env symbology r an_info_event s = refl
  dispatch-HasPeerOf env symbology r (an_auth_event a) s = refl
  dispatch-HasPeerOf env symbology r a_funding_info s = refl
  dispatch-HasPeerOf env symbology r a_margin_info_update s = refl
  dispatch-HasPeerOf env symbology r a_margin_info_base s = refl
  dispatch-HasPeerOf env symbology r (a_wallet_snapshot l) s =
      for_orders-HasPeerOf name session other _ s
  dispatch-HasPeerOf env symbology r (a_wallet_update x) s =
      for_orders-HasPeerOf name session other _ s
  dispatch-HasPeerOf env symbology r (a_balance_info b) s =
      for_orders-HasPeerOf name session other _ s
  dispatch-HasPeerOf env symbology r (a_balance_update b) s =
      for_orders-HasPeerOf name session other _ s
  dispatch-HasPeerOf env symbology r (a_position_snapshot l) s =
      for_orders-HasPeerOf name session other _ s
  dispatch-HasPeerOf env symbology r (a_position_update x) s =
      for_orders-HasPeerOf name session other _ s
  dispatch-HasPeerOf env symbology r (an_order_snapshot l) s =
      for_orders-HasPeerOf name session other _ s
  dispatch-HasPeerOf env symbology r a_subscribe_event s = refl
  dispatch-HasPeerOf env symbology r (a_book_snapshot l) s =
      for_market_data-HasPeerOf name session other _ s
  dispatch-HasPeerOf env symbology r (a_book_update u) s =
      for_market_data-HasPeerOf name session other _ s
  dispatch-HasPeerOf env symbology r a_trade_execution s = refl
  dispatch-HasPeerOf env symbology r (a_trade_execution_update x) s =
      for_orders-HasPeerOf name session other _ s
  dispatch-HasPeerOf env symbology r (a_trade x) s =
      for_market_data-HasPeerOf name session other _ s
  dispatch-HasPeerOf env symbology r (a_trade_snapshot l) s = refl
  dispatch-HasPeerOf env symbology r (an_error_event e) s =
      handle_error_event-HasPeerOf name session other env r.ids e s
  dispatch-HasPeerOf env symbology r (an_error e) s = refl
  dispatch-HasPeerOf env symbology r unhandled s = refl

  handle_request-HasPeerOf :
      (env : Env F D) (symbology : Symbology) (w : Surroundings F) (msg : FieldMap D) (q : Request)
      (s : Service F D)
      → HasPeerOf name s (handle_request env symbology w session q msg s).1
  unfolding handle_request
  handle_request-HasPeerOf env symbology w msg new_order_single s =
      with_peer-HasPeerOf name session other _ _ s
  handle_request-HasPeerOf env symbology w msg order_cancel_replace_request s =
      with_peer-HasPeerOf name session other _ _ s
  handle_request-HasPeerOf env symbology w msg order_cancel_request s =
      with_peer-HasPeerOf name session other _ _ s
  handle_request-HasPeerOf env symbology w msg order_status_request s =
      with_peer-HasPeerOf name session other _ _ s
  handle_request-HasPeerOf env symbology w msg market_data_request s =
      with_peer-HasPeerOf name session other _ _ s

  from_app-HasPeerOf :
      (env : Env F D) (symbology : Symbology) (w : Surroundings F)
      (find_route : List Route → SessionId → FieldMap D → Result Route) (msg_type : Result String)
      (msg : FieldMap D) (s : Service F D)
      → HasPeerOf name s (from_app env symbology w session find_route msg_type msg s).1
  unfolding from_app find_peer
  from_app-HasPeerOf env symbology w find_route msg_type msg s =
      elim (Result-cases (find_route (routes s.service_type) session msg)) [
        | inl (r, e) ↦ rw (e, from_app) refl
        | inr (route, e) ↦
            rw (e, from_app) (handle_request-HasPeerOf env symbology w msg route.request _)
      ]

  connect_peer-HasPeerOf :
      (env : Env F D) (msg : FieldMap D) (c : Credentials) (s : Service F D)
      → HasPeerOf name s (connect_peer env session msg c s).1
  unfolding connect_peer logout_session logon find_peer
  connect_peer-HasPeerOf env msg c s = elim (Option-cases (find_peer session.name s)) [
    | inl missing ↦ rw (missing, connect_peer) refl
    | inr (p, hit) ↦
        let cod = bool_or_false (msg.get_bool Tag.cancel_on_disconnect) in
        let p' = (logon env c cod p).1 in
        let w = put_peer-HasPeerOf name session other p' s in
        elim (Option-cases (logon env c cod p).0) [
          | inl fine ↦ rw (hit, fine, connect_peer) w
          | inr (e, error) ↦
              elim (Handled-cases (logout_session env session e (put_peer session.name p' s)).0) [
                | inl sends ↦ rw (hit, error, sends, connect_peer) w
                | inr (inl (e2, fails)) ↦ rw (hit, error, fails, connect_peer) w
                | inr (inr crashes) ↦ rw (hit, error, crashes, connect_peer) w
              ]
        ]
  ]

  from_admin-HasPeerOf :
      (env : Env F D) (is_logon : Bool) (msg : FieldMap D) (s : Service F D)
      → HasPeerOf name s (from_admin env is_logon session msg s).1
  unfolding from_admin add_peer put_peer
  from_admin-HasPeerOf env false msg s = refl
  from_admin-HasPeerOf env true msg s = go (read_logon msg) refl
    where
      added : HasPeerOf name s (add_peer session s)
      added = put_peer-HasPeerOf name session other _ s

      go : (x : Logon) → read_logon msg ≡ x → HasPeerOf name s (from_admin env true session msg s).1
      go (returned out) e = rw (e, from_admin) added
      go (credentials c) e =
          rw (e, from_admin) (connect_peer-HasPeerOf env msg c (add_peer session s) ∙ added)

  on_disconnect-HasPeerOf :
      (env : Env F D) (dc : Bool) (s : Service F D)
      → HasPeerOf name s (on_disconnect env dc session s).1
  unfolding on_disconnect logout_session find_peer
  on_disconnect-HasPeerOf env dc s = elim (Option-cases (find_peer session.name s)) [
    | inl missing ↦ rw (missing, on_disconnect) refl
    | inr (p, hit) ↦ elim (Bool-cases dc) [
      | inr closed ↦ rw (hit, closed, on_disconnect) refl
      | inl lost ↦ elim (Handled-cases (logout_session env session "downstream disconnect" s).0) [
        | inl sends ↦ rw (hit, lost, sends, on_disconnect) refl
        | inr (inl (e2, fails)) ↦ rw (hit, lost, fails, on_disconnect) refl
        | inr (inr crashes) ↦ rw (hit, lost, crashes, on_disconnect) refl
      ]
    ]
  ]

  on_logout-HasPeerOf : (s : Service F D) → HasPeerOf name s (on_logout session s)
  unfolding on_logout remove_peer find_peer
  on_logout-HasPeerOf s = elim (Option-cases (lookup session.name s.peers)) [
    | inl missing ↦ rw (missing, on_logout, remove_peer) refl
    | inr (p, hit) ↦
        rw (hit, on_logout, remove_peer)
          (ground (arith, lookup-delete session.name name s.peers, eq_iff session.name name, other))
  ]

module _ {F D : Type 0} ⦃fl : Floats F⦄ ⦃dc : Decimals F D⦄ where
  -- The session that something happens to.
  abbrev pub subject : {s s' : Service F D} → Happens s s' → SessionId
  subject (admin_message env is_logon session msg) = session
  subject (app_message env symbology w session find_route msg_type msg v router) = session
  subject (logout_of session) = session
  subject (disconnect_of env dc session) = session
  subject (data_message env symbology session r d o) = session

  -- Whatever happens to one session, be it a message of its client or of Bitfinex, a logon, a
  -- logout or a lost connection: the session of any other name has just the peer that it had, with
  -- the same cache and the same requests.
  pub happens-HasPeerOf :
      (s s' : Service F D) (name : String) (h : Happens s s')
      → name ≢ (subject h).name
      → HasPeerOf name s s'
  happens-HasPeerOf s s' name (admin_message env is_logon session msg) other =
      from_admin-HasPeerOf name session other env is_logon msg s
  happens-HasPeerOf s s' name (app_message env symbology w session find_route t msg v router)
        other =
      from_app-HasPeerOf name session other env symbology w find_route t msg s
  happens-HasPeerOf s s' name (logout_of session) other = on_logout-HasPeerOf name session other s
  happens-HasPeerOf s s' name (disconnect_of env dc session) other =
      on_disconnect-HasPeerOf name session other env dc s
  happens-HasPeerOf s s' name (data_message env symbology session r d o) other =
      dispatch-HasPeerOf name session other env symbology r d s
