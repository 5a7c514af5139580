-- ===== src/Tests/Unidentified.antt =====
-- Orders that the session does not know, at concrete inputs.
use Prim.Native.String.{◌++◌ as join}
use bfxfixgw.Base.{ℕ, ◌≡◌, refl, [], ◌∷◌, none, some}
use bfxfixgw.Base.Int.{ℤ, pos}
use bfxfixgw.Base.Maps.{find_first, Order as Visits, IsOrder}
use bfxfixgw.Base.Text.Decimal.{format_int, parse_int}
use bfxfixgw.Convert.Fields.{is_fix42}
use bfxfixgw.Convert.Reports.{TradeExecutionUpdate}
use bfxfixgw.Fix.{FieldMap, ok}
use bfxfixgw.Inbound.Status.{order_status_for}
use bfxfixgw.Inbound.Status.Unidentified.{IsUnidentified, order_status-IsUnidentified}
use bfxfixgw.Outbound.{failed_with}
use bfxfixgw.Outbound.Orders.{fix_trade_execution_update_handler}
use bfxfixgw.Outbound.Orders.Fetched.{IsRecorded, fetched_execution-IsRecorded}
use bfxfixgw.Outbound.Snapshots.{fix_order_snapshot_handler}
use bfxfixgw.Outbound.Snapshots.Unidentified.{unknown_snapshot_fails}
use bfxfixgw.Peer.Cache.{lookup_by_order_id}
use bfxfixgw.Peer.Order.{CachedOrder}
use bfxfixgw.Symbol.{new_passthrough_symbology}
use bfxfixgw.Tests.Values.{
  int_floats, int_decimals, as_is, as_is-IsOrder, willing, session, fresh, blank, no_order,
}
use bfxfixgw.World.{Env, got, asked_trades}

abbrev status_message : FieldMap ℤ
status_message = record blank { get_string = λ tag. ok "7" }

abbrev execution : TradeExecutionUpdate ℤ
execution = record {
  id = pos 11;
  pair = "tBTCUSD";
  order_id = pos 7;
  exec_amount = pos 1;
  exec_price = pos 100;
  order_type = "EXCHANGE LIMIT";
  fee = pos 0;
}

abbrev with_trades : Env ℤ ℤ
with_trades = record willing { order_trades = λ l s id. got (some (execution ∷ [])) }

abbrev in_order : ℕ → Visits (CachedOrder ℤ)
in_order i = as_is

in_order-IsOrder : (i : ℕ) → IsOrder (in_order i)
in_order-IsOrder i = as_is-IsOrder

not_cached : lookup_by_order_id as_is (format_int (pos 7)) fresh.cache ≡ none
unfolding lookup_by_order_id find_first
not_cached = refl

number_read : parse_int "7" ≡ some (pos 7)
unfolding parse_int
number_read = refl

order_status-IsUnidentified_example :
    IsUnidentified as_is no_order
      (order_status_for as_is
        (λ t. t)
        willing
        new_passthrough_symbology
        session
        status_message
        fresh).1.cache
order_status-IsUnidentified_example =
    order_status-IsUnidentified as_is as_is (λ t. t) willing new_passthrough_symbology session
      status_message fresh "7" (pos 7) no_order as_is-IsOrder as_is-IsOrder tt refl number_read refl
      not_cached

unknown_snapshot_fails_example :
    let (result, p') =
      fix_order_snapshot_handler with_trades new_passthrough_symbology session in_order
        (no_order ∷ [])
        fresh in
    (result ≡ failed_with (join "could not find OrderID " (join (format_int (pos 7)) " in cache")))
    × (p'.log ≡ asked_trades no_order.symbol no_order.id ∷ fresh.log)
unknown_snapshot_fails_example =
    unknown_snapshot_fails with_trades new_passthrough_symbology session in_order as_is no_order []
      execution [] fresh in_order-IsOrder as_is-IsOrder tt not_cached refl

fetched_execution-IsRecorded_example :
    let (result, p') =
      fix_trade_execution_update_handler willing new_passthrough_symbology session as_is as_is
        execution fresh in
    IsRecorded execution no_order fresh result p'
fetched_execution-IsRecorded_example =
    fetched_execution-IsRecorded willing new_passthrough_symbology session as_is as_is execution
      no_order fresh is_fix42 as_is-IsOrder as_is-IsOrder tt not_cached refl refl
