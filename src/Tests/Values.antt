-- ===== src/Tests/Values.antt =====
-- Concrete values for the parameters of the model: integers as the numbers, and a world that
-- answers every request without an error.
use mathlib.Core.List.Permᴰ as Perm
use bfxfixgw.Base.{
  ℕ, String, ◌≡◌, nat_eq, ◌==◌, ◌||◌, if◌then◌else◌, true, false, none, [], ◌∷◌, arith,
}
use bfxfixgw.Base.Floats.{Floats, Decimals}
use bfxfixgw.Base.Int.{ℤ, pos, ◌+ℤ◌, ◌-ℤ◌, ◌*ℤ◌, ltb_ℤ, eqb_ℤ}
use bfxfixgw.Base.Maps.{Order, IsOrder}
use bfxfixgw.Convert.Reports.{Order as BfxOrder}
use bfxfixgw.Fix.{FieldMap, SessionId, Result, ok, err, fix42, conditionally_required_field_missing}
use bfxfixgw.Fix.DisplayMethod
use bfxfixgw.Fix.ExecInst
use bfxfixgw.Fix.OrdType
use bfxfixgw.Fix.Side
use bfxfixgw.Fix.Tag
use bfxfixgw.Fix.TimeInForce
use bfxfixgw.Peer.Cache.{new_cache}
use bfxfixgw.World.{Env, Peer, got}

pub negate : ℤ → ℤ
negate a = pos 0 -ℤ a

pub negate_of_negative : (x : ℤ) → ltb_ℤ x (pos 0) ≡ true → ltb_ℤ (pos 0) (negate x) ≡ true
unfolding negate ◌-ℤ◌
negate_of_negative x h = ground arith

pub ltb_asymm : (x y : ℤ) → ltb_ℤ x y ≡ true → ltb_ℤ y x ≡ false
ltb_asymm x y h = ground arith

-- Division is not exercised by the tests.
instance abbrev pub int_floats : Floats ℤ
int_floats = record {
  zero = pos 0;
  add = ◌+ℤ◌;
  mul = ◌*ℤ◌;
  div = λ a b. a;
  neg = negate;
  lt = ltb_ℤ;
  eq = eqb_ℤ;
  is_finite = λ x. true;
  neg_of_negative = negate_of_negative;
  lt_asymm = ltb_asymm;
}

instance abbrev pub int_decimals : Decimals ℤ ℤ
int_decimals = record {
  of_float = λ x. x;
  to_float = λ x. x;
  sub = ◌-ℤ◌;
  zero = pos 0;
  is_zero = λ x. eqb_ℤ x (pos 0);
}

abbrev pub as_is : {V : Type 0} → Order V
as_is m = m

pub as_is-IsOrder : {V : Type 0} → IsOrder {V = V} as_is
as_is-IsOrder m = Perm.refl m

abbrev pub no_order : BfxOrder ℤ
no_order = record {
  id = pos 7;
  gid = pos 0;
  cid = pos 5;
  symbol = "tBTCUSD";
  amount = pos 3;
  type = "EXCHANGE LIMIT";
  mts_tif = pos 0;
  flags = 0;
  status = "ACTIVE";
  price = pos 100;
  price_avg = pos 0;
  price_trailing = pos 0;
  price_aux_limit = pos 0;
  hidden = false;
}

abbrev pub willing : Env ℤ ℤ
willing = record {
  send = λ l m. none;
  submit_order = λ l o. none;
  submit_update = λ l o. none;
  send_cancel = λ l o. none;
  order_by_id = λ l id. got no_order;
  order_trades = λ l s id. got none;
  book_all = λ l s p d. got [];
  subscribe_book = λ l s p d. got "book-1";
  subscribe_trades = λ l s. got "trades-1";
  unsubscribe = λ l id. none;
  connect = λ l. none;
  has_subscription = λ l id. id == "book-1" || id == "trades-1";
  today = λ l. "20200101";
  new_uuid = λ l. "uuid";
}

abbrev pub session : SessionId
session = record {
  begin_string = fix42;
  target_comp_id = "EXORG_MD";
  name = "FIX.4.2:BFXFIX->EXORG_MD";
}

abbrev pub fresh : Peer ℤ ℤ
fresh = record { cache = new_cache; bfx_user_id = "user"; log = [] }

abbrev pub missing : {A : Type 0} → ℕ → Result A
missing tag = err (conditionally_required_field_missing tag)

-- A message with no field.
abbrev pub blank : FieldMap ℤ
blank = record {
  has = λ tag. false;
  get_string = missing;
  get_decimal = missing;
  get_time = missing;
  get_int = missing;
  get_bool = missing;
  get_related_symbols = missing 146;
}

-- A market data request for two symbols, of the subscription type `sub`.
abbrev pub md_message : (sub : String) → FieldMap ℤ
md_message sub = record blank {
  get_string = λ tag.
      if nat_eq tag Tag.md_req_id
      then ok "md-1"
      else if nat_eq tag Tag.subscription_request_type
      then ok sub
      else missing tag;
  get_int = λ tag. ok (pos 25);
  get_related_symbols = ok (ok "tBTCUSD" ∷ ok "tETHUSD" ∷ []);
}

-- A limit order to sell 3, hidden and post only.
abbrev pub order_message : FieldMap ℤ
order_message = record blank {
  has = λ tag. nat_eq tag Tag.exec_inst;
  get_string = λ tag.
      if nat_eq tag Tag.cl_ord_id
      then ok "5"
      else if nat_eq tag Tag.ord_type
      then ok OrdType.limit
      else if nat_eq tag Tag.side
      then ok Side.sell
      else if nat_eq tag Tag.symbol
      then ok "tBTCUSD"
      else if nat_eq tag Tag.exec_inst
      then ok ExecInst.participant_dont_initiate
      else if nat_eq tag Tag.display_method
      then ok DisplayMethod.undisclosed
      else missing tag;
  get_decimal = λ tag.
      if nat_eq tag Tag.price
      then ok (pos 100)
      else if nat_eq tag Tag.order_qty
      then ok (pos 3)
      else missing tag;
}

-- An order that is good till 1.5 seconds past the start of 1970.
abbrev pub dated_message : FieldMap ℤ
dated_message = record blank {
  has = λ tag. nat_eq tag Tag.time_in_force;
  get_string = λ tag. ok TimeInForce.good_till_date;
  get_time = λ tag. ok (pos 1_500_000_000);
}
