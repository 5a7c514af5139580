-- ===== src/Tests/MarketData.antt =====
-- OnFIXMarketDataRequest at concrete inputs.
use Prim.Native.String.{◌++◌ as join}
use bfxfixgw.Base.{ℕ, String, ◌≡◌, refl, false, [], ◌∷◌, inr}
use bfxfixgw.Base.Int.{ℤ, pos, negsuc}
use bfxfixgw.Base.Maps.{Order, lookup, find_first}
use bfxfixgw.Fix.{FieldMap, ok}
use bfxfixgw.Fix.MdReqRejReason
use bfxfixgw.Fix.SubscriptionRequestType
use bfxfixgw.Inbound.MarketData.{MdRequest, Round, next, read_md_request}
use bfxfixgw.Inbound.MarketData.Caches.{peer_of}
use bfxfixgw.Inbound.MarketData.Properties.{AreOrders, market_data_request-IsMdValid}
use bfxfixgw.Inbound.MarketData.Refusals.{
  IsQuiet, disable_never_unsubscribes, second_symbol_refused,
}
use bfxfixgw.Inbound.MarketData.Rounds.{
  reject_request, rounds, symbol_round, market_data_request_for,
}
use bfxfixgw.Inbound.MarketData.Valid.{IsMdValid}
use bfxfixgw.Convert.Fields.{is_fix42}
use bfxfixgw.Convert.MarketData.{Trade, BookUpdate, bid}
use bfxfixgw.Convert.ToFix.{book_remove_entry}
use bfxfixgw.Outbound.MarketData.{fix_trade_handler, fix_book_update}
use bfxfixgw.Outbound.MarketData.Routing.{IsSentUnder, updates-IsSentUnder}
use bfxfixgw.Peer.Cache.{md_req_id_exists, lookup_md_req_id}
use bfxfixgw.Symbol.{new_passthrough_symbology}
use bfxfixgw.Tests.Values.{
  int_floats, int_decimals, as_is, as_is-IsOrder, willing, session, fresh, md_message,
}
use bfxfixgw.World.{Peer}

abbrev in_order : ℕ → Order String
in_order i = as_is

in_order-AreOrders : AreOrders in_order
in_order-AreOrders i = as_is-IsOrder

fresh-IsMdValid : IsMdValid fresh.cache
fresh-IsMdValid = record { symbols = tt; one_symbol = tt; tracked = tt }

abbrev subscription : FieldMap ℤ
subscription = md_message SubscriptionRequestType.snapshot_plus_updates

abbrev ending : FieldMap ℤ
ending = md_message SubscriptionRequestType.disable_previous_snapshot_plus_update_request

-- What is read of a message of the type `sub`.
abbrev request : String → MdRequest
request sub = record {
  symbols = ok "tBTCUSD" ∷ ok "tETHUSD" ∷ [];
  md_req_id = "md-1";
  sub_type = sub;
  depth = pos 25;
  precision = "P0";
  override_precision = false;
}

-- The session after the subscription.
abbrev subscribed : Peer ℤ ℤ
subscribed =
    (market_data_request_for in_order willing new_passthrough_symbology session subscription
      fresh).1

market_data_request-IsMdValid_example : IsMdValid subscribed.cache
market_data_request-IsMdValid_example =
    market_data_request-IsMdValid in_order willing new_passthrough_symbology session subscription
      fresh in_order-AreOrders fresh-IsMdValid

read_ending :
    read_md_request ending
    ≡ ok (request SubscriptionRequestType.disable_previous_snapshot_plus_update_request)
unfolding read_md_request
read_ending = refl

disable_never_unsubscribes_example :
    IsQuiet subscribed
      (market_data_request_for in_order willing new_passthrough_symbology session ending
        subscribed).1
disable_never_unsubscribes_example =
    disable_never_unsubscribes in_order willing new_passthrough_symbology session ending
      (request SubscriptionRequestType.disable_previous_snapshot_plus_update_request) subscribed
      in_order-AreOrders market_data_request-IsMdValid_example read_ending refl

abbrev first_round : Round ℤ ℤ
first_round =
    symbol_round willing new_passthrough_symbology session subscription
      (request SubscriptionRequestType.snapshot_plus_updates) as_is "tBTCUSD" fresh

first_round_goes_on : first_round ≡ next (peer_of first_round)
unfolding symbol_round md_req_id_exists find_first lookup_md_req_id lookup
first_round_goes_on = refl

second_symbol_refused_example :
    rounds willing new_passthrough_symbology session subscription
      (request SubscriptionRequestType.snapshot_plus_updates)
      in_order
      0
      (ok "tBTCUSD" ∷ ok "tETHUSD" ∷ [])
      fresh
    ≡ reject_request willing new_passthrough_symbology session subscription
        (request SubscriptionRequestType.snapshot_plus_updates)
        (join "duplicate MDReqID by session: " "md-1")
        MdReqRejReason.duplicate_mdreqid
        (peer_of first_round)
second_symbol_refused_example =
    second_symbol_refused willing new_passthrough_symbology session subscription
      (request SubscriptionRequestType.snapshot_plus_updates) in_order 0 "tBTCUSD" "tETHUSD" []
      fresh (peer_of first_round) in_order-AreOrders (inr refl) fresh-IsMdValid first_round_goes_on

abbrev trade : Trade ℤ
trade = record { pair = "tBTCUSD"; price = pos 100; amount = negsuc 2 }

abbrev book_update : BookUpdate ℤ
book_update = record {
  symbol = "tBTCUSD";
  price = pos 100;
  amount = pos 2;
  side = bid;
  action = book_remove_entry;
}

updates-IsSentUnder_example :
    IsSentUnder "md-1"
      (peer_of first_round)
      (fix_trade_handler willing new_passthrough_symbology session trade (peer_of first_round)).1
    × IsSentUnder "md-1"
        (peer_of first_round)
        (fix_book_update willing new_passthrough_symbology session book_update
          (peer_of first_round)).1
unfolding new_passthrough_symbology
updates-IsSentUnder_example =
    updates-IsSentUnder willing new_passthrough_symbology session subscription
      (request SubscriptionRequestType.snapshot_plus_updates) as_is "tBTCUSD" fresh
      (peer_of first_round) trade book_update is_fix42 (inr refl) first_round_goes_on refl refl
