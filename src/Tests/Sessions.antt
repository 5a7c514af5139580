-- ===== src/Tests/Sessions.antt =====
-- The two services at concrete inputs.
use bfxfixgw.Base.{
  ℕ, String, ◌≡◌, ◌≢◌, ◌≤◌, ◌⊎◌, eq_iff, refl, true, false, none, some, Option, List, [], ◌∷◌,
}
use bfxfixgw.Base.Int.{ℤ, pos}
use bfxfixgw.Base.Maps.{lookup, assign, Order as Visits, Distinct}
use bfxfixgw.Application.{from_admin, read_logon}
use bfxfixgw.Application.Logons.{IsLoggedOn, logon-IsLoggedOn}
use bfxfixgw.Convert.Fields.{is_fix42}
use bfxfixgw.Convert.Ticker.{trade_ticker_group, trade_ticker_group_bound, length, AllGood}
use bfxfixgw.Convert.Version1.{
  OldOrder, NewerOrder, FloatText, order_from_v1_order, order_from_v1_order_errors, first_error,
  numbers,
}
use bfxfixgw.Fix.{FieldMap, SessionId, GenericFix, Value, ok, fix44}
use bfxfixgw.Fix.SubscriptionRequestType
use bfxfixgw.Inbound.MarketData.{MdRequest, read_md_request}
use bfxfixgw.Inbound.MarketData.Properties.{AreOrders}
use bfxfixgw.Inbound.MarketData.Refusals.{IsQuiet}
use bfxfixgw.Inbound.MarketData.Rounds.{market_data_request_for}
use bfxfixgw.Outbound.{of_error}
use bfxfixgw.Peer.Cache.{new_cache}
use bfxfixgw.Peer.Cache.Invariant.{IsValid}
use bfxfixgw.Service.{
  Service, market_data_service, order_routing_service, new_service, find_peer, stop,
}
use bfxfixgw.Service.Stopping.{IsStopped, stop_closes_all}
use bfxfixgw.Service.Dispatch.{dispatch, listen, handle_error_event}
use bfxfixgw.Service.Errors.{Answers, error_event-Answers}
use bfxfixgw.Service.Listening.{before_nil, ending, handle_all, listen_handles_all}
use bfxfixgw.Service.Messages.{
  ErrorEvent, Ranges, Message, an_order_snapshot, an_order_cancel, an_error_event,
}
use bfxfixgw.Sessions.{
  AreVisits, IsReachable, Happens, starts, goes_on, admin_message, data_message,
}
use bfxfixgw.Sessions.Invariant.{
  IsSeparate, reachable_caches-IsValid, reachable-IsSeparate, reachable_disable-IsQuiet,
}
use bfxfixgw.Sessions.Isolation.{happens-HasPeerOf}
use bfxfixgw.Sessions.Others.{HasPeerOf}
use bfxfixgw.Sessions.Keeps.{OfCaches}
use bfxfixgw.Symbol.{new_passthrough_symbology}
use bfxfixgw.Tests.Values.{
  int_floats, int_decimals, as_is, as_is-IsOrder, willing, session, blank, no_order, md_message,
}
use bfxfixgw.World.{Peer, got, failed, sent, connected}

abbrev other_session : SessionId
other_session = record {
  begin_string = fix44;
  target_comp_id = "EXORG_ORD";
  name = "FIX.4.4:BFXFIX->EXORG_ORD";
}

-- A Logon with the three fields.
abbrev logon_message : FieldMap ℤ
logon_message = record blank { get_string = λ tag. ok "credential" }

abbrev in_order : ℕ → Visits String
in_order i = as_is

in_order-AreOrders : AreOrders in_order
in_order-AreOrders i = as_is-IsOrder

abbrev plain : Ranges ℤ
plain = record { orders = as_is; executions = λ i. as_is; cancels = as_is; ids = as_is }

plain-AreVisits : AreVisits plain
plain-AreVisits = record {
  orders = as_is-IsOrder;
  executions = λ i. as_is-IsOrder;
  cancels = as_is-IsOrder;
  ids = as_is-IsOrder;
}

abbrev empty_orders : Service ℤ ℤ
empty_orders = new_service order_routing_service

-- The order routing service after a Logon, and after a snapshot with one order.
abbrev logged_on : Service ℤ ℤ
logged_on = (from_admin willing true session logon_message empty_orders).1

abbrev with_order : Service ℤ ℤ
with_order =
    (dispatch willing new_passthrough_symbology session plain (an_order_snapshot (no_order ∷ []))
      logged_on).1

abbrev with_order_happens : Happens logged_on with_order
with_order_happens =
    data_message willing new_passthrough_symbology session plain (an_order_snapshot (no_order ∷ []))
      plain-AreVisits

with_order-IsReachable : IsReachable order_routing_service with_order
with_order-IsReachable =
    goes_on (goes_on starts (admin_message willing true session logon_message)) with_order_happens

reachable_caches-IsValid_example : OfCaches IsValid with_order
reachable_caches-IsValid_example =
    reachable_caches-IsValid order_routing_service with_order with_order-IsReachable

reachable-IsSeparate_example :
    (with_order.service_type ≡ order_routing_service)
    × OfCaches (IsSeparate order_routing_service) with_order
reachable-IsSeparate_example =
    reachable-IsSeparate order_routing_service with_order with_order-IsReachable

other_name : other_session.name ≢ session.name
other_name same =
    let equal : false ≡ true = (eq_iff other_session.name session.name).1 same in cc equal

happens-HasPeerOf_example : HasPeerOf other_session.name logged_on with_order
happens-HasPeerOf_example =
    happens-HasPeerOf logged_on with_order other_session.name with_order_happens other_name

logon-IsLoggedOn_example : IsLoggedOn logon_message session empty_orders logged_on
logon-IsLoggedOn_example = logon-IsLoggedOn willing session logon_message empty_orders

abbrev market : Service ℤ ℤ
market = (from_admin willing true session logon_message (new_service market_data_service)).1

-- The peer of the session after its Logon.
abbrev market_peer : Peer ℤ ℤ
market_peer = record {
  cache = new_cache;
  bfx_user_id = "credential";
  log = connected "credential" "credential" false ∷ [];
}

market_peer_found : find_peer session.name market ≡ some market_peer
unfolding from_admin new_service find_peer read_logon lookup assign
market_peer_found = refl

abbrev ending_request : MdRequest
ending_request = record {
  symbols = ok "tBTCUSD" ∷ ok "tETHUSD" ∷ [];
  md_req_id = "md-1";
  sub_type = SubscriptionRequestType.disable_previous_snapshot_plus_update_request;
  depth = pos 25;
  precision = "P0";
  override_precision = false;
}

abbrev ending_message : FieldMap ℤ
ending_message = md_message SubscriptionRequestType.disable_previous_snapshot_plus_update_request

ending_message_read : read_md_request ending_message ≡ ok ending_request
unfolding read_md_request
ending_message_read = refl

reachable_disable-IsQuiet_example :
    IsQuiet market_peer
      (market_data_request_for in_order willing new_passthrough_symbology session ending_message
        market_peer).1
reachable_disable-IsQuiet_example =
    reachable_disable-IsQuiet market market_peer in_order willing new_passthrough_symbology session
      ending_message ending_request
      (goes_on starts (admin_message willing true session logon_message)) in_order-AreOrders
      market_peer_found ending_message_read refl

-- An error, an order, and a nil message.
abbrev lost : ErrorEvent
lost = record { sub_id = "book-1"; channel = "book"; message = "symbol: invalid" }

abbrev messages : List (Option (Message ℤ))
messages =
    some (record { data_of = an_error_event lost; session = session; ranges = plain })
    ∷ some (record { data_of = an_order_cancel no_order; session = session; ranges = plain })
    ∷ none
    ∷ []

listen_handles_all_example : listen willing new_passthrough_symbology messages market ≡ (
  ending willing new_passthrough_symbology messages,
  handle_all willing new_passthrough_symbology
      (before_nil willing new_passthrough_symbology messages)
      market,
)
unfolding from_admin lookup assign new_service
listen_handles_all_example =
    listen_handles_all willing new_passthrough_symbology messages market (is_fix42, (is_fix42, tt))
      refl

-- A market data service whose session has one subscription.
abbrev subscribed_service : Service ℤ ℤ
subscribed_service = record market {
  peers =
      (
        session.name,
        record market_peer {
          cache = record {
            orders = [];
            cancels = [];
            md_req_ids = ("md-1", record { market_data_id = "book-1"; trade_id = "trades-1" }) ∷ [];
            symbol_to_req_id = ("tBTCUSD", "md-1") ∷ [];
          };
        },
      )
      ∷ [];
}

error_event-Answers_example :
    (m : GenericFix ℤ) × Answers willing session lost subscribed_service m
    × (handle_error_event willing as_is session lost subscribed_service ≡ (
      of_error (willing.send subscribed_service.log m),
      record subscribed_service { log = sent m ∷ subscribed_service.log },
    ))
unfolding lookup
error_event-Answers_example =
    error_event-Answers willing as_is session lost subscribed_service as_is-IsOrder ((refl, tt), tt)

-- Every text is read as the number 1.
abbrev text_numbers : FloatText ℤ
text_numbers = record { parse_float = λ t. got (pos 1); to_int64 = λ x. x; of_int64 = λ n. n }

abbrev old_order : OldOrder
old_order = record {
  id = pos 7;
  symbol = "BTCUSD";
  is_hidden = true;
  timestamp = "1";
  price = "1";
  avg_execution_price = "1";
  is_canceled = false;
  is_live = true;
  side = "sell";
  original_amount = "1";
  remaining_amount = "1";
  type = "limit";
}

order_from_v1_order_errors_example :
    ((e : String)
      → first_error text_numbers (numbers text_numbers old_order) ≡ some e
      → order_from_v1_order text_numbers old_order ≡ failed e)
    × (first_error text_numbers (numbers text_numbers old_order) ≡ none
        → (x : NewerOrder ℤ) × (order_from_v1_order text_numbers old_order ≡ got x)
          × (x.id ≡ old_order.id)
          × (x.symbol ≡ old_order.symbol)
          × (x.hidden ≡ old_order.is_hidden))
order_from_v1_order_errors_example = order_from_v1_order_errors text_numbers old_order

abbrev ticker : List ℤ
ticker = pos 1 ∷ pos 2 ∷ pos 3 ∷ pos 4 ∷ pos 5 ∷ pos 6 ∷ pos 7 ∷ pos 8 ∷ pos 9 ∷ pos 10 ∷ []

trade_ticker_group_bound_example :
    (AllGood ticker
      × (10 ≤ length ticker)
      × (g : List (List (ℕ × Value ℤ))) × (trade_ticker_group ticker ≡ some g)
      × (length g ≡ 6))
    ⊎ (¬ (AllGood ticker) × (trade_ticker_group {F = ℤ} {D = ℤ} ticker ≡ none))
trade_ticker_group_bound_example = trade_ticker_group_bound ticker

market_names : Distinct market.peers
unfolding from_admin new_service read_logon assign lookup
market_names = (refl, tt)

stop_closes_all_example :
    IsStopped
      (λ name. true)
      market
      (stop (λ s. s) (λ name. true) as_is market).0
      (stop (λ s. s) (λ name. true) as_is market).1
stop_closes_all_example =
    stop_closes_all (λ name. true) (λ s. s) as_is market as_is-IsOrder market_names
