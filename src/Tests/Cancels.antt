-- ===== src/Tests/Cancels.antt =====
-- Cancels and replacements of orders at concrete inputs.
use bfxfixgw.Base.{List, String, ◌≡◌, refl, nat_eq, true, false, some, [], ◌∷◌, ◌⊎◌, if◌then◌else◌}
use bfxfixgw.Base.Int.{ℤ, pos}
use bfxfixgw.Base.Maps.{lookup, find_first}
use bfxfixgw.Base.Text.Decimal.{format_int, parse_int}
use bfxfixgw.Base.Time.{Time}
use bfxfixgw.Convert.Fields.{is_fix42}
use bfxfixgw.Convert.FromFix.{
  get_prices_from_ord_type, get_time_in_force_from_fix, order_new_type_from_fix,
  get_amount_from_qty_and_side, get_flags_from_fix,
}
use bfxfixgw.Convert.Reports.{Order as BfxOrder}
use bfxfixgw.Fix.{FieldMap, ok, err, Reject}
use bfxfixgw.Fix.OrdType
use bfxfixgw.Fix.Tag
use bfxfixgw.Inbound.Cancel.{CancelFields, read_cancel, order_cancel_for}
use bfxfixgw.Inbound.Cancel.Asked.{CallsFor, HasAsked, order_cancel-HasAsked}
use bfxfixgw.Inbound.CancelReplace.{found_order, find_replaced, read_update, replace_order, Update}
use bfxfixgw.Inbound.CancelReplace.SharedId.{HasId, replace_order-HasId}
use bfxfixgw.Inbound.Orders.{gen_mts_tif}
use bfxfixgw.Outbound.{handled}
use bfxfixgw.Outbound.Orders.{fix_order_cancel_handler}
use bfxfixgw.Outbound.Orders.Cancels.{cancel_of_fill_untold, report_args, tells_of_fill}
use bfxfixgw.Outbound.Survives.{Tells}
use bfxfixgw.Convert.Finite.{AreFinite}
use bfxfixgw.Peer.Cache.{new_cache, lookup_by_order_id, lookup_by_cl_ord_id}
use bfxfixgw.Peer.Order.{CachedOrder, new_order}
use bfxfixgw.Symbol.{new_passthrough_symbology}
use bfxfixgw.Tests.Layout.{marks}
use bfxfixgw.Tests.Values.{
  int_floats, int_decimals, as_is, willing, no_order, session, fresh, blank, missing,
}
use bfxfixgw.World.{OrderCancelRequest, Peer, rejected}

-- The order 5 of the client, which Bitfinex calls 7.
abbrev pub order_5 : CachedOrder ℤ
order_5 =
    record (new_order "5" (pos 100) (pos 0) (pos 0) (pos 3) "tBTCUSD" "user" "1" "2" false "1"
      (pos 0) 0) { order_id = "7" }

abbrev pub with_order : Peer ℤ ℤ
with_order = record fresh { cache = record new_cache { orders = ("5", order_5) ∷ [] } }

-- A request that names the order 5 and has the ClOrdID 6, to cancel it or to buy 2 at 101.
abbrev change_message : FieldMap ℤ
change_message = record blank {
  get_string = λ tag.
      if nat_eq tag Tag.orig_cl_ord_id
      then ok "5"
      else if nat_eq tag Tag.cl_ord_id
      then ok "6"
      else if nat_eq tag Tag.ord_type
      then ok OrdType.limit
      else missing tag;
  get_decimal = λ tag.
      if nat_eq tag Tag.price
      then ok (pos 101)
      else if nat_eq tag Tag.order_qty
      then ok (pos 2)
      else missing tag;
  get_time = λ tag. ok (pos 0);
}

abbrev some_date : Time → String
some_date t = "1970-01-01"

order_cancel-HasAsked_example :
    let (out, p') = order_cancel_for some_date willing session change_message with_order in
    ((r : Reject) × (read_cancel change_message ≡ err r) × (out ≡ rejected r) × (p' ≡ with_order))
    ⊎ ((q : CancelFields) × (l : List OrderCancelRequest) × (read_cancel change_message ≡ ok q)
        × CallsFor some_date change_message q l
        × HasAsked l with_order p')
order_cancel-HasAsked_example =
    order_cancel-HasAsked some_date willing session change_message with_order

abbrev update : Update ℤ
update = record {
  ou = record {
    id = pos 7;
    gid = pos 0;
    amount = pos 2;
    price = pos 101;
    price_aux_limit = pos 0;
    price_trailing = pos 0;
    hidden = false;
    post_only = false;
    time_in_force = "";
    leverage = pos 0;
  };
  t = OrdType.limit;
  tif = "1";
  typ = "EXCHANGE LIMIT";
}

order_found :
    find_replaced change_message "5" "6" with_order.cache ≡ found_order "7" (pos 7) (pos 6) order_5
unfolding find_replaced lookup parse_int lookup_by_cl_ord_id
order_found = refl

update_read : read_update marks change_message (pos 7) order_5 ≡ ok update
unfolding read_update get_prices_from_ord_type get_time_in_force_from_fix order_new_type_from_fix
    get_amount_from_qty_and_side get_flags_from_fix new_order
update_read = refl

no_expiry : gen_mts_tif marks "" ≡ some (pos 0)
unfolding gen_mts_tif
no_expiry = refl

replace_order-HasId_example :
    let c' =
      (replace_order willing marks new_passthrough_symbology session change_message "5" "6"
        with_order).1.cache in
    HasId "6" "7" c' × HasId "5" "7" c'
replace_order-HasId_example =
    replace_order-HasId willing marks new_passthrough_symbology session change_message "5" "6" "7"
      (pos 7) (pos 6) (pos 0) order_5 update with_order refl order_found update_read no_expiry

abbrev part_canceled : BfxOrder ℤ
part_canceled = record no_order { status = "CANCELED was: PARTIALLY FILLED @ 100.0(1.0)" }

pub order_7_cached : lookup_by_order_id as_is (format_int (pos 7)) with_order.cache ≡ some order_5
unfolding lookup_by_order_id find_first format_int
order_7_cached = refl

cancel_of_fill_untold_example :
    let (result, p') =
      fix_order_cancel_handler willing new_passthrough_symbology session as_is part_canceled
        with_order in
    ((tells_of_fill part_canceled.status ≡ true) × (result ≡ handled) × (p' ≡ with_order))
    ⊎ ((tells_of_fill part_canceled.status ≡ false)
        × Tells
            (AreFinite (report_args part_canceled order_5 with_order.bfx_user_id))
            result
            with_order.log
            p'.log)
cancel_of_fill_untold_example =
    cancel_of_fill_untold willing new_passthrough_symbology session as_is part_canceled with_order
      order_5 is_fix42 order_7_cached
