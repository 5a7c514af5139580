-- ===== src/Convert/FromFix.antt =====
-- convert/websocket_order.go: the fields of a FIX order as a new order for Bitfinex.
use bfxfixgw.Base.{String, Bool, false, ◌&&◌, ◌||◌, Option, none, some, ◌==◌, if◌then◌else◌}
use bfxfixgw.Base.Floats.{Floats, Decimals}
use bfxfixgw.Base.Int.{ℤ, pos}
use bfxfixgw.Base.Text.{contains, replace_first}
use bfxfixgw.Base.Text.Decimal.{parse_int}
use bfxfixgw.Base.Time.{TimeLayout}
use bfxfixgw.Convert.OrderType
use bfxfixgw.Fix.{FieldMap, Result, ok, err, value_is_incorrect, text_or_empty, ◌>>=◌}
use bfxfixgw.Fix.CashMargin
use bfxfixgw.Fix.ContingencyType
use bfxfixgw.Fix.DisplayMethod
use bfxfixgw.Fix.ExecInst
use bfxfixgw.Fix.OrdType
use bfxfixgw.Fix.Side
use bfxfixgw.Fix.Tag
use bfxfixgw.Fix.TimeInForce
use bfxfixgw.Symbol.{Symbology}

-- The Bitfinex order type for an order type, a time in force and the execution instructions;
-- `has_inst` tells whether the message has instructions at all.
unfoldable pub exchange_type : (ot tif : String) → (has_inst : Bool) → (ei : String) → String
exchange_type ot tif has_inst ei =
    if tif == TimeInForce.fill_or_kill || tif == TimeInForce.immediate_or_cancel
    then OrderType.exchange_fok
    else if ot == OrdType.market
    then OrderType.exchange_market
    else if ot == OrdType.limit
    then OrderType.exchange_limit
    else if ot == OrdType.stop
    then if has_inst && contains ei ExecInst.primary_peg
      then OrderType.exchange_trailing_stop
      else OrderType.exchange_stop
    else if ot == OrdType.stop_limit
    then OrderType.exchange_stop_limit
    else ""

abbrev pub holds : (String → Bool) → Result String → Bool
holds p (ok s) = p s
holds p (err e) = false

-- translated, err := symbology.…; if err != nil { translated = symbol }
abbrev pub or_same : String → Option String → String
or_same symbol none = symbol
or_same symbol (some s) = s

abbrev pub or_zero : Option ℤ → ℤ
or_zero none = pos 0
or_zero (some n) = n

module _ {D : Type 0} where
  -- OrderNewTypeFromFIX
  unfoldable pub order_new_type_from_fix : FieldMap D → Result String
  unfolding exchange_type
  order_new_type_from_fix msg =
      let ot = text_or_empty (msg.get_string Tag.ord_type) in
      let tif = text_or_empty (msg.get_string Tag.time_in_force) in
      let ei = text_or_empty (msg.get_string Tag.exec_inst) in
      let cm = text_or_empty (msg.get_string Tag.cash_margin) in
      let ord_type = exchange_type ot tif (msg.has Tag.exec_inst) ei in
      if ei == ExecInst.all_or_none
      then err (value_is_incorrect Tag.exec_inst)
      else if msg.has Tag.cash_margin && cm == CashMargin.margin_open
      then ok (replace_first ord_type "EXCHANGE" "MARGIN")
      else ok ord_type

  -- GetTimeInForceFromFIX: the time in force that the cache keeps, and the expiry as text. The time
  -- in force is the default in every case: the field that is read is not returned.
  unfoldable pub get_time_in_force_from_fix : TimeLayout → FieldMap D → Result (String × String)
  get_time_in_force_from_fix layout msg =
      if msg.has Tag.time_in_force
      then (do
        tif ← msg.get_string Tag.time_in_force
        if tif == TimeInForce.good_till_date
            then (do
              expiration ← msg.get_time Tag.expire_time
              ok (TimeInForce.good_till_cancel, layout.format expiration))
            else ok (TimeInForce.good_till_cancel, ""))
      else ok (TimeInForce.good_till_cancel, "")

  -- GetFlagsFromFIX: hidden, post only, one cancels the other
  unfoldable pub get_flags_from_fix : FieldMap D → Bool × Bool × Bool
  get_flags_from_fix msg = (
    holds (λ s. s == DisplayMethod.undisclosed) (msg.get_string Tag.display_method),
    holds (λ s. contains s ExecInst.participant_dont_initiate) (msg.get_string Tag.exec_inst),
    msg.has Tag.contingency_type
        && holds (λ s. s == ContingencyType.one_cancels_the_other)
            (msg.get_string Tag.contingency_type),
  )

-- What GetPricesFromOrdType returns besides its error.
pub record Prices (F : Type 0) : Type 0 where
  pub t : String
  pub px : F
  pub auxpx : F
  pub trailpx : F
  pub ocopx : F

-- bitfinex.OrderNewRequest
pub record OrderNewRequest (F : Type 0) : Type 0 where
  pub gid : ℤ
  pub cid : ℤ
  pub type : String
  pub symbol : String
  pub amount : F
  pub price : F
  pub price_aux_limit : F
  pub price_trailing : F
  pub price_oco_stop : F
  pub hidden : Bool
  pub post_only : Bool
  pub oco_order : Bool
  pub time_in_force : String
  pub leverage : ℤ

module _ {F D : Type 0} ⦃fl : Floats F⦄ ⦃dc : Decimals F D⦄ where
  -- GetAmountFromQtyAndSide
  unfoldable pub get_amount_from_qty_and_side : (side : String) → D → F
  get_amount_from_qty_and_side side qty =
      let amount = dc.to_float qty in if side == Side.sell then fl.neg amount else amount

  -- The case OrdType_LIMIT: the price, and the stop of an order that cancels another.
  unfoldable pub limit_prices : FieldMap D → Result (F × F)
  limit_prices msg = do
    pd ← msg.get_decimal Tag.price
    if msg.has Tag.contingency_type
        then (do
          ctf ← msg.get_string Tag.contingency_type
          if ctf == ContingencyType.one_cancels_the_other
              then (do oco ← msg.get_decimal Tag.stop_px; ok (dc.to_float pd, dc.to_float oco))
              else ok (dc.to_float pd, fl.zero))
        else ok (dc.to_float pd, fl.zero)

  -- The case OrdType_STOP: the stop, and the peg of a trailing stop.
  unfoldable pub stop_prices : FieldMap D → Result (F × F)
  stop_prices msg = do
    pd ← msg.get_decimal Tag.stop_px
    if msg.has Tag.exec_inst
        then (do
          inst ← msg.get_string Tag.exec_inst
          if contains inst ExecInst.primary_peg
              then (do
                trail ← msg.get_decimal Tag.peg_difference
                ok (dc.to_float pd, dc.to_float trail))
              else ok (dc.to_float pd, fl.zero))
        else ok (dc.to_float pd, fl.zero)

  -- The case OrdType_STOP_LIMIT: the limit and the stop.
  unfoldable pub stop_limit_prices : FieldMap D → Result (F × F)
  stop_limit_prices msg = do
    lm ← msg.get_decimal Tag.price
    pd ← msg.get_decimal Tag.stop_px
    ok (dc.to_float lm, dc.to_float pd)

  -- GetPricesFromOrdType
  unfoldable pub get_prices_from_ord_type : FieldMap D → Result (Prices F)
  unfolding limit_prices stop_prices stop_limit_prices
  get_prices_from_ord_type msg = do
    t ← msg.get_string Tag.ord_type
    let none_set : Prices F = record {
      t = t;
      px = fl.zero;
      auxpx = fl.zero;
      trailpx = fl.zero;
      ocopx = fl.zero;
    }
    if t == OrdType.limit
        then (do (px, oco) ← limit_prices msg; ok (record none_set { px = px; ocopx = oco }))
        else if t == OrdType.stop
        then (do (px, trail) ← stop_prices msg; ok (record none_set { px = px; trailpx = trail }))
        else if t == OrdType.stop_limit
        then (do (px, aux) ← stop_limit_prices msg; ok (record none_set { px = px; auxpx = aux }))
        else ok none_set

  -- OrderNewFromFIXNewOrderSingle
  unfoldable pub order_new_from_fix_new_order_single :
      FieldMap D → Symbology → (counterparty : String) → Result (OrderNewRequest F)
  unfolding get_amount_from_qty_and_side
  order_new_from_fix_new_order_single msg symbology counterparty = do
    cid ← msg.get_string Tag.cl_ord_id
    type ← order_new_type_from_fix msg
    sym ← msg.get_string Tag.symbol
    prices ← get_prices_from_ord_type msg
    side ← msg.get_string Tag.side
    qty ← msg.get_decimal Tag.order_qty
    let (hidden, post_only, oco) = get_flags_from_fix msg
    ok (record {
      gid = pos 0;
      cid = or_zero (parse_int cid);
      type = type;
      symbol = or_same sym (symbology.to_bitfinex sym counterparty);
      amount = get_amount_from_qty_and_side side qty;
      price = prices.px;
      price_aux_limit = prices.auxpx;
      price_trailing = prices.trailpx;
      price_oco_stop = prices.ocopx;
      hidden = hidden;
      post_only = post_only;
      oco_order = oco;
      time_in_force = "";
      leverage = pos 0;
    })
