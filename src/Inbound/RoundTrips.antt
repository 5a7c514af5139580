-- ===== src/Inbound/RoundTrips.antt =====
-- What becomes of an order type on the way from FIX to Bitfinex and back.
use bfxfixgw.Base.{
  String, ◌≡◌, refl, Bool, true, false, ◌&&◌, ◌||◌, arith, ◌==◌, Bool-cases, inl, inr,
  if◌then◌else◌,
}
use bfxfixgw.Base.Text.{contains, replace_first}
use bfxfixgw.Convert.FromFix.{exchange_type, order_new_type_from_fix}
use bfxfixgw.Convert.OrderType
use bfxfixgw.Convert.ToFix.{ord_type_to_fix}
use bfxfixgw.Fix.{FieldMap, ok, text_or_empty}
use bfxfixgw.Fix.CashMargin
use bfxfixgw.Fix.ExecInst
use bfxfixgw.Fix.OrdType
use bfxfixgw.Fix.Tag
use bfxfixgw.Fix.TimeInForce

-- A time in force that Bitfinex takes as "fill or kill".
abbrev pub is_fok : String → Bool
is_fok tif = tif == TimeInForce.fill_or_kill || tif == TimeInForce.immediate_or_cancel

-- The order types of FIX that the gateway translates.
pub data IsSupported : String → Type 0 where
  market : IsSupported OrdType.market
  limit : IsSupported OrdType.limit
  stop : IsSupported OrdType.stop
  stop_limit : IsSupported OrdType.stop_limit

-- The order type that reports say of an order with that order type and that time in force.
unfoldable pub reported : {ot : String} → IsSupported ot → (is_fok : Bool) → String
reported s true = OrdType.limit
reported market false = OrdType.market
reported limit false = OrdType.limit
reported stop false = OrdType.stop
reported stop_limit false = OrdType.market

-- The order type is not a trailing stop unless the instructions peg it.
abbrev kept_type : {ot : String} → IsSupported ot → (pegged : Bool) → String
kept_type market pegged = OrderType.exchange_market
kept_type limit pegged = OrderType.exchange_limit
kept_type stop pegged = if pegged then OrderType.exchange_trailing_stop else OrderType.exchange_stop
kept_type stop_limit pegged = OrderType.exchange_stop_limit

exchange_type-kept :
    {ot : String} (s : IsSupported ot) (tif ei : String) (has_inst : Bool)
    → exchange_type ot tif has_inst ei ≡ (
        if is_fok tif
        then OrderType.exchange_fok
        else kept_type s (has_inst && contains ei ExecInst.primary_peg))
unfolding exchange_type
exchange_type-kept market tif ei has_inst = refl
exchange_type-kept limit tif ei has_inst = refl
exchange_type-kept stop tif ei has_inst = refl
exchange_type-kept stop_limit tif ei has_inst = refl

reported_type :
    {ot : String} (s : IsSupported ot) (fok pegged : Bool)
    → let t : String = if fok then OrderType.exchange_fok else kept_type s pegged in
      (ord_type_to_fix t ≡ (reported s fok, false))
      × (ord_type_to_fix (replace_first t "EXCHANGE" "MARGIN") ≡ (reported s fok, true))
unfolding ord_type_to_fix reported contains replace_first
reported_type market true pegged = (refl, refl)
reported_type limit true pegged = (refl, refl)
reported_type stop true pegged = (refl, refl)
reported_type stop_limit true pegged = (refl, refl)
reported_type market false pegged = (refl, refl)
reported_type limit false pegged = (refl, refl)
reported_type stop false true = (refl, refl)
reported_type stop false false = (refl, refl)
reported_type stop_limit false pegged = (refl, refl)

module _ {D : Type 0} where
  -- The field CashMargin asks for margin.
  abbrev pub on_margin : FieldMap D → Bool
  on_margin msg =
      msg.has Tag.cash_margin
      && text_or_empty (msg.get_string Tag.cash_margin) == CashMargin.margin_open

  -- If the gateway takes a supported order type, then the Bitfinex type it makes of it is reported
  -- back as on margin exactly if the order asked for margin, and with the same order type, but for
  -- two cases: a fill-or-kill order is reported as a limit order, and a stop limit order, whose
  -- Bitfinex type OrdTypeToFIX does not know, as a market order.
  pub order_type_reported :
      {ot : String} (msg : FieldMap D) (s : IsSupported ot) (t : String)
      → text_or_empty (msg.get_string Tag.ord_type) ≡ ot
      → order_new_type_from_fix msg ≡ ok t
      → ord_type_to_fix t
        ≡ (reported s (is_fok (text_or_empty (msg.get_string Tag.time_in_force))), on_margin msg)
  unfolding order_new_type_from_fix
  order_type_reported {ot} msg s t same e =
      let tif = text_or_empty (msg.get_string Tag.time_in_force) in
      let ei = text_or_empty (msg.get_string Tag.exec_inst) in
      let has_inst = msg.has Tag.exec_inst in
      let pegged = has_inst && contains ei ExecInst.primary_peg in
      let kept = exchange_type-kept s tif ei has_inst in
      let (plain, margin) = reported_type s (is_fok tif) pegged in
      elim (Bool-cases (ei == ExecInst.all_or_none)) [
        | inl refused ↦ ground arith
        | inr taken ↦ elim (Bool-cases (on_margin msg)) [
          | inl asked ↦ rw asked (cc (rw (taken, asked, same, kept) at e, margin))
          | inr none_asked ↦ rw none_asked (cc (rw (taken, none_asked, same, kept) at e, plain))
        ]
      ]
