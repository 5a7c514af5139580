-- ===== src/Convert/ToFix.antt =====
-- convert/fix.go: values of Bitfinex as values of FIX.
use Prim.Native.String.{◌++◌ as join}
use bfxfixgw.Base.{
  ℕ, ◌/◌, ◌%◌, String, Bool, true, false, not, ◌||◌, Option, none, some, ◌==◌, nat_eq,
  if◌then◌else◌,
}
use bfxfixgw.Base.Floats.{Floats, Decimals}
use bfxfixgw.Base.Int.{ℤ, pos, ltb_ℤ, ◌*ℤ◌}
use bfxfixgw.Base.Text.{contains, replace_first}
use bfxfixgw.Base.Time.{Time, zero_time, wrap64}
use bfxfixgw.Convert.OrderType
use bfxfixgw.Fix.{Value, dec}
use bfxfixgw.Fix.DisplayMethod
use bfxfixgw.Fix.ExecInst
use bfxfixgw.Fix.ExecType
use bfxfixgw.Fix.MdUpdateAction
use bfxfixgw.Fix.OrdStatus
use bfxfixgw.Fix.OrdType
use bfxfixgw.Fix.Side
use bfxfixgw.Fix.Tag
use bfxfixgw.Fix.TimeInForce

abbrev pub flag_hidden : ℕ
flag_hidden = 64

abbrev pub flag_post_only : ℕ
flag_post_only = 4096

-- flags & flag != 0, for a flag of one bit
unfoldable pub has_flag : ℕ → ℕ → Bool
has_flag flags flag = nat_eq (flags / flag % 2) 1

abbrev pub status_active : String
status_active = "ACTIVE"

abbrev pub status_executed : String
status_executed = "EXECUTED"

abbrev pub status_partially_filled : String
status_partially_filled = "PARTIALLY FILLED"

abbrev pub status_canceled : String
status_canceled = "CANCELED"

-- OrdStatusToFIX
unfoldable pub ord_status_to_fix : String → String
ord_status_to_fix status =
    if contains status status_executed
    then OrdStatus.filled
    else if contains status status_partially_filled
    then OrdStatus.partially_filled
    else if contains status status_canceled
    then OrdStatus.canceled
    else OrdStatus.new

-- ExecTypeToFIX
unfoldable pub exec_type_to_fix : String → String
exec_type_to_fix status =
    if contains status status_active
    then ExecType.new
    else if contains status status_canceled
    then ExecType.canceled
    else if contains status status_partially_filled
    then ExecType.trade
    else if contains status status_executed
    then ExecType.trade
    else ExecType.order_status

-- SideToFIX
unfoldable pub side_to_fix : {F : Type 0} ⦃fl : Floats F⦄ → F → String
side_to_fix ⦃fl⦄ amount =
    if fl.lt fl.zero amount
    then Side.buy
    else if fl.lt amount fl.zero
    then Side.sell
    else Side.undisclosed

-- The `switch` of OrdTypeToFIX, after the margin prefix has been replaced.
unfoldable pub ord_type_of_exchange : String → String
ord_type_of_exchange t =
    if t == OrderType.exchange_limit || t == OrderType.limit
    then OrdType.limit
    else if t == OrderType.exchange_market || t == OrderType.market
    then OrdType.market
    else if t == OrderType.stop
        || t == OrderType.trailing_stop
        || t == OrderType.exchange_trailing_stop
        || t == OrderType.exchange_stop
    then OrdType.stop
    else if t == OrderType.stop_limit
    then OrdType.stop_limit
    else if t == OrderType.fok || t == OrderType.exchange_fok
    then OrdType.limit
    else OrdType.market

-- OrdTypeToFIX: the order type, and whether the order is on margin
unfoldable pub ord_type_to_fix : String → String × Bool
unfolding ord_type_of_exchange
ord_type_to_fix bfx =
    (ord_type_of_exchange (replace_first bfx "MARGIN" "EXCHANGE"), contains bfx "MARGIN")

-- bitfinex.BookAction
pub data BookAction : Type 0 where
  book_update_entry book_remove_entry : BookAction
  other_action : ℕ → BookAction

-- BookActionToFIX
unfoldable pub book_action_to_fix : BookAction → String
book_action_to_fix book_update_entry = MdUpdateAction.new
book_action_to_fix book_remove_entry = MdUpdateAction.delete
book_action_to_fix (other_action n) = MdUpdateAction.new

-- MTSToTime
unfoldable pub mts_to_time : ℤ → Time × Bool
mts_to_time mts =
    if ltb_ℤ (pos 0) mts then (wrap64 (mts *ℤ pos 1_000_000), true) else (zero_time, false)

-- TimeInForceToFIX
unfoldable pub time_in_force_to_fix : String → ℤ → String × Time
unfolding mts_to_time
time_in_force_to_fix ordtype mtstif =
    let (tif, valid) = mts_to_time mtstif in
    if valid
    then (TimeInForce.good_till_date, tif)
    else if ordtype == OrderType.fok || ordtype == OrderType.exchange_fok
    then (TimeInForce.fill_or_kill, tif)
    else (TimeInForce.good_till_cancel, tif)

-- ExecInstToFIX: the instructions, and whether there are any
unfoldable pub exec_inst_to_fix : String → ℕ → String × Bool
unfolding has_flag
exec_inst_to_fix ordtype flags =
    let peg : String =
      if ordtype == OrderType.trailing_stop || ordtype == OrderType.exchange_trailing_stop
      then ExecInst.primary_peg
      else "" in
    let all : String =
      if has_flag flags flag_post_only then join peg ExecInst.participant_dont_initiate else peg in
    (all, not (all == ""))

-- DisplayMethodToFIX
unfoldable pub display_method_to_fix : ℕ → Option String
unfolding has_flag
display_method_to_fix flags =
    if has_flag flags flag_hidden then some DisplayMethod.undisclosed else none

module _ {F D : Type 0} ⦃dc : Decimals F D⦄ where
  -- LeavesQtyToFIX, LastSharesToFIX, CumQtyToFIX and AvgPxToFIX
  unfoldable pub leaves_qty_to_fix : F → ℕ × Value D
  leaves_qty_to_fix amount = (Tag.leaves_qty, dec (dc.of_float amount) 4)

  unfoldable pub last_shares_to_fix : F → ℕ × Value D
  last_shares_to_fix qty = (Tag.last_shares, dec (dc.of_float qty) 4)

  unfoldable pub cum_qty_to_fix : F → ℕ × Value D
  cum_qty_to_fix cum_qty = (Tag.cum_qty, dec (dc.of_float cum_qty) 2)

  unfoldable pub avg_px_to_fix : F → ℕ × Value D
  avg_px_to_fix price_avg = (Tag.avg_px, dec (dc.of_float price_avg) 2)
