-- ===== src/Application/Requests.antt =====
-- New and FromApp of service/fix/fix.go, and the handlers of service/fix/fix_msg.go with what they
-- answer to a session without a peer.
use Prim.Native.String.{◌++◌ as join}
use bfxfixgw.Base.{ℕ, String, none, some, List, [], ◌∷◌}
use bfxfixgw.Base.Floats.{Floats, Decimals}
use bfxfixgw.Base.Maps.{Order as Visits}
use bfxfixgw.Base.Text.Decimal.{parse_int}
use bfxfixgw.Base.Time.{Time, TimeLayout}
use bfxfixgw.Fix.{FieldMap, SessionId, Result, ok, err, text_or_empty, message_reject}
use bfxfixgw.Fix.Tag
use bfxfixgw.Inbound.Cancel.{order_cancel_for, read_cancel}
use bfxfixgw.Inbound.CancelReplace.{order_cancel_replace_for}
use bfxfixgw.Inbound.MarketData.Rounds.{market_data_request_for}
use bfxfixgw.Inbound.NewOrder.{new_order_for, no_peer_text}
use bfxfixgw.Inbound.Status.{order_status_for}
use bfxfixgw.Peer.Order.{CachedOrder}
use bfxfixgw.Service.{
  Service, ServiceType, market_data_service, order_routing_service, find_peer, put_peer,
}
use bfxfixgw.Symbol.{Symbology}
use bfxfixgw.World.{Env, Peer, Outcome, rejected}

-- The packages of the message types: fix42, fix44 and fix50.
pub data Package : Type 0 where
  package42 package44 package50 : Package

-- The message types that have a route.
pub data Request : Type 0 where
  new_order_single order_cancel_replace_request order_cancel_request order_status_request : Request
  market_data_request : Request

pub record Route : Type 0 where
  pub version : Package
  pub request : Request

-- The calls of AddRoute in New, in their order.
unfoldable pub routes : ServiceType → List Route
routes order_routing_service =
    record { version = package42; request = new_order_single }
    ∷ record { version = package42; request = order_cancel_replace_request }
    ∷ record { version = package42; request = order_cancel_request }
    ∷ record { version = package42; request = order_status_request }
    ∷ record { version = package44; request = new_order_single }
    ∷ record { version = package44; request = order_cancel_replace_request }
    ∷ record { version = package44; request = order_cancel_request }
    ∷ record { version = package44; request = order_status_request }
    ∷ record { version = package50; request = new_order_single }
    ∷ record { version = package50; request = order_cancel_replace_request }
    ∷ record { version = package50; request = order_cancel_request }
    ∷ record { version = package50; request = order_status_request }
    ∷ []
routes market_data_service =
    record { version = package42; request = market_data_request }
    ∷ record { version = package44; request = market_data_request }
    ∷ record { version = package50; request = market_data_request }
    ∷ []

-- What the handlers take from elsewhere: the layouts of times, the text of the error of
-- strconv.ParseInt, and the orders in which they range over the maps of the cache.
pub record Surroundings (F : Type 0) : Type 0 where
  pub layout : TimeLayout
  pub format_date : Time → String
  pub parse_error : String → String
  pub md_ranges : ℕ → Visits String
  pub orders : Visits (CachedOrder F)

module _ {F D : Type 0} where
  -- A handler that has found its peer, or `missing`, what it answers if there is none.
  unfoldable pub with_peer :
      SessionId
      → (missing : Outcome) → (Peer F D → Outcome × Peer F D)
      → Service F D
      → Outcome × Service F D
  unfolding find_peer put_peer
  with_peer session missing handler s = elim (find_peer session.name s) [
    | none ↦ (missing, s)
    | some p ↦ let (out, p') = handler p in (out, put_peer session.name p' s)
  ]

abbrev pub no_peer : Outcome
no_peer = rejected (message_reject no_peer_text)

module _ {D : Type 0} where
  -- What is read before FindPeer by OnFIXOrderCancelReplaceRequest, OnFIXOrderCancelRequest and
  -- OnFIXOrderStatusRequest.
  unfoldable pub replace_without_peer : FieldMap D → Outcome
  replace_without_peer msg = elim (msg.get_string Tag.orig_cl_ord_id) [
    | err r ↦ rejected r
    | ok ocid ↦ elim (msg.get_string Tag.cl_ord_id) [ err r ↦ rejected r | ok cid ↦ no_peer ]
  ]

  unfoldable pub cancel_without_peer : FieldMap D → Outcome
  unfolding read_cancel
  cancel_without_peer msg = elim (read_cancel msg) [ err r ↦ rejected r | ok q ↦ no_peer ]

  unfoldable pub status_without_peer :
      (parse_error : String → String) → SessionId → FieldMap D → Outcome
  status_without_peer parse_error session msg = elim (msg.get_string Tag.order_id) [
    | err e ↦ rejected e
    | ok oid ↦ elim (parse_int oid) [
      | none ↦ rejected (message_reject (parse_error oid))
      | some oidi ↦
          rejected (message_reject (join "could not find route for FIX session " session.name))
    ]
  ]

module _ {F D : Type 0} ⦃fl : Floats F⦄ ⦃dc : Decimals F D⦄ (env : Env F D) (symbology : Symbology)
    (w : Surroundings F) (session : SessionId) where
  -- The handler that New gives to the route of a message type, in each version.
  unfoldable pub handle_request : Request → FieldMap D → Service F D → Outcome × Service F D
  unfolding with_peer replace_without_peer cancel_without_peer status_without_peer
  handle_request new_order_single msg s =
      with_peer session no_peer (new_order_for env w.layout symbology session msg) s
  handle_request order_cancel_replace_request msg s =
      with_peer session (replace_without_peer msg)
        (order_cancel_replace_for env w.layout symbology session msg) s
  handle_request order_cancel_request msg s =
      with_peer session (cancel_without_peer msg) (order_cancel_for w.format_date env session msg) s
  handle_request order_status_request msg s =
      with_peer session (status_without_peer w.parse_error session msg)
        (order_status_for w.orders w.parse_error env symbology session msg) s
  handle_request market_data_request msg s =
      with_peer session no_peer (market_data_request_for w.md_ranges env symbology session msg) s

  -- FromApp. `find_route` is what quickfix's Route selects of the routes for the message, or its
  -- reject; `msg_type` is the answer for the field 35 of the header.
  unfoldable pub from_app :
      (find_route : List Route → SessionId → FieldMap D → Result Route)
      → (msg_type : Result String) → FieldMap D
      → Service F D
      → Outcome × Service F D
  unfolding routes handle_request
  from_app find_route msg_type msg s =
      let s1 : Service F D = record s { last_msg_type = text_or_empty msg_type } in
      elim (find_route (routes s1.service_type) session msg) [
        | err r ↦ (rejected r, s1)
        | ok route ↦ handle_request route.request msg s1
      ]
