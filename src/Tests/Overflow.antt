-- ===== src/Tests/Overflow.antt =====
-- An execution whose total is not finite, at a concrete input.
use bfxfixgw.Base.{◌≡◌, refl, some, [], ◌∷◌, none}
use bfxfixgw.Base.Floats.{Floats, magnitude}
use bfxfixgw.Base.Int.{ℤ, pos, ltb_ℤ, ◌+ℤ◌, ◌*ℤ◌}
use bfxfixgw.Base.Maps.{lookup, find_first}
use bfxfixgw.Base.Text.Decimal.{format_int}
use bfxfixgw.Convert.Reports.{TradeExecutionUpdate}
use bfxfixgw.Peer.Cache.{add_execution}
use bfxfixgw.Peer.Order.{append_execution, filled_qty, avg_fill_px, new_order}
use bfxfixgw.Service.{Service, order_routing_service, new_service, find_peer}
use bfxfixgw.Service.Dispatch.{listen, panicked}
use bfxfixgw.Service.Messages.{Ranges, a_trade_execution_update}
use bfxfixgw.Service.Overflow.{overflow_ends_listen}
use bfxfixgw.Symbol.{new_passthrough_symbology}
use bfxfixgw.Tests.Cancels.{with_order, order_5, order_7_cached}
use bfxfixgw.Tests.Values.{as_is, int_floats, int_decimals, willing, session}

-- Floats of which those below 100 are finite.
abbrev small_floats : Floats ℤ
small_floats = record int_floats { is_finite = λ x. ltb_ℤ x (pos 100) }

abbrev as_they_are : Ranges ℤ
as_they_are = record { orders = as_is; executions = λ i. as_is; cancels = as_is; ids = as_is }

abbrev large : TradeExecutionUpdate ℤ
large = record {
  id = pos 11;
  pair = "tBTCUSD";
  order_id = pos 7;
  exec_amount = pos 200;
  exec_price = pos 1;
  order_type = "EXCHANGE LIMIT";
  fee = pos 0;
}

abbrev trading : Service ℤ ℤ
trading = record (new_service order_routing_service) { peers = (session.name, with_order) ∷ [] }

found : find_peer session.name trading ≡ some with_order
unfolding new_service find_peer lookup
found = refl

totals :
    (add_execution ⦃fl = small_floats⦄ as_is
      (format_int (pos 7))
      (format_int (pos 11))
      (pos 1)
      (pos 200)
      with_order.cache).0
    ≡ some (pos 200, pos 200)
unfolding add_execution find_first format_int append_execution filled_qty avg_fill_px new_order ◌+ℤ◌
    magnitude ◌*ℤ◌
totals = refl

overflow_ends_listen_example :
    (listen ⦃fl = small_floats⦄ willing new_passthrough_symbology
      (some (record {
        data_of = a_trade_execution_update large;
        session = session;
        ranges = as_they_are;
      })
        ∷ none
        ∷ [])
      trading).0
    ≡ panicked
unfolding new_service
overflow_ends_listen_example =
    overflow_ends_listen ⦃fl = small_floats⦄ willing new_passthrough_symbology session as_they_are
      large (none ∷ []) trading with_order order_5 (pos 200) (pos 200) refl found order_7_cached
      totals refl
