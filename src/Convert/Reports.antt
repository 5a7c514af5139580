-- ===== src/Convert/Reports.antt =====
-- convert/fix_msg.go: execution reports, cancel rejects and position reports. A function that
-- panics, on a BeginString or on a number that is not finite, returns `none` there.
use Prim.Native.String.{◌++◌ as join}
use bfxfixgw.Base.{
  ℕ, String, Bool, not, ◌&&◌, ◌||◌, Option, none, some, List, [], ◌∷◌, ◌==◌, if◌then◌else◌,
}
use bfxfixgw.Base.Floats.{Floats, Decimals}
use bfxfixgw.Base.Int.{ℤ}
use bfxfixgw.Base.Time.{Time}
use bfxfixgw.Convert.FromFix.{or_same}
use bfxfixgw.Convert.ToFix.{flag_hidden, flag_post_only, has_flag, avg_px_to_fix}
use bfxfixgw.Fix.{
  Value, text, dec, time, Kind, BeginString, fix42, unsupported, GenericFix, set, execution_report,
}
use bfxfixgw.Fix.CashMargin
use bfxfixgw.Fix.DisplayMethod
use bfxfixgw.Fix.ExecInst
use bfxfixgw.Fix.ExecTransType
use bfxfixgw.Fix.OrdStatus
use bfxfixgw.Fix.OrdType
use bfxfixgw.Fix.Tag
use bfxfixgw.Fix.TimeInForce
use bfxfixgw.Symbol.{Symbology}

abbrev pub order_not_found_text : String
order_not_found_text = "Order not found."

-- bitfinex.Order, the fields that the program reads
pub record Order (F : Type 0) : Type 0 where
  pub id : ℤ
  pub gid : ℤ
  pub cid : ℤ
  pub symbol : String
  pub amount : F
  pub type : String
  pub mts_tif : ℤ
  pub flags : ℕ
  pub status : String
  pub price : F
  pub price_avg : F
  pub price_trailing : F
  pub price_aux_limit : F
  pub hidden : Bool

-- bitfinex.TradeExecutionUpdate, the fields that the program reads
pub record TradeExecutionUpdate (F : Type 0) : Type 0 where
  pub id : ℤ
  pub pair : String
  pub order_id : ℤ
  pub exec_amount : F
  pub exec_price : F
  pub order_type : String
  pub fee : F

-- The statuses in which nothing remains to be executed.
unfoldable pub leaves_nothing : String → Bool
leaves_nothing s =
    s == OrdStatus.canceled
    || s == OrdStatus.done_for_day
    || s == OrdStatus.expired
    || s == OrdStatus.replaced
    || s == OrdStatus.stopped
    || s == OrdStatus.suspended

module _ {D : Type 0} where
  -- if b { e.Set(field) }
  abbrev pub set_if : Bool → ℕ × Value D → GenericFix D → GenericFix D
  set_if b f m = if b then set f m else m

  -- The three constructors of a version; another BeginString panics.
  unfoldable pub new_message : BeginString → Kind → List (ℕ × Value D) → Option (GenericFix D)
  new_message (unsupported s) kind fields = none
  new_message v kind fields =
      some (record { version = v; kind = kind; fields = fields; group = [] })

-- The arguments of FIXExecutionReport after the BeginString, and the symbology's last.
pub record ReportArgs (F : Type 0) : Type 0 where
  pub symbol : String
  pub cl_ord_id : String
  pub order_id : String
  pub account : String
  pub exec_type : String
  pub side : String
  pub orig_qty : F
  pub this_qty : F
  pub cum_qty : F
  pub px : F
  pub stop : F
  pub trail : F
  pub avg_px : F
  pub ord_status : String
  pub ord_type : String
  pub is_margin : Bool
  pub tif : String
  pub exp : Time
  pub text : String
  pub flags : ℕ

module _ {F : Type 0} ⦃fl : Floats F⦄ where
  -- The execution instructions of a report.
  unfoldable pub report_exec_inst : ReportArgs F → String
  unfolding has_flag
  report_exec_inst a =
      let peg : String = if not (fl.eq a.trail fl.zero) then ExecInst.primary_peg else "" in
      if has_flag a.flags flag_post_only then join peg ExecInst.participant_dont_initiate else peg

  -- Whether every number that FIXExecutionReport gives to NewFromFloat is finite: it panics if not.
  unfoldable pub are_finite :
      (ord_type : String) → (orig_qty this_qty cum_qty px stop trail avg_px : F) → Bool
  are_finite ord_type orig_qty this_qty cum_qty px stop trail avg_px =
      let limit = ord_type == OrdType.limit || ord_type == OrdType.stop_limit in
      let stops = ord_type == OrdType.stop || ord_type == OrdType.stop_limit in
      fl.is_finite orig_qty
      && fl.is_finite cum_qty
      && fl.is_finite this_qty
      && fl.is_finite avg_px
      && (not (not (fl.eq px fl.zero) && limit) || fl.is_finite px)
      && (not (not (fl.eq stop fl.zero) && stops) || fl.is_finite stop)
      && (fl.eq trail fl.zero || fl.is_finite trail)

  unfoldable pub is_convertible : ReportArgs F → Bool
  unfolding are_finite
  is_convertible a =
      are_finite a.ord_type a.orig_qty a.this_qty a.cum_qty a.px a.stop a.trail a.avg_px

module _ {F D : Type 0} ⦃fl : Floats F⦄ ⦃dc : Decimals F D⦄ where
  -- What remains to be executed.
  unfoldable pub remaining : ReportArgs F → D
  unfolding leaves_nothing
  remaining a =
      if leaves_nothing a.ord_status
      then dc.zero
      else dc.sub (dc.of_float a.orig_qty) (dc.of_float a.cum_qty)

  -- The fields that the constructor of the version sets, and those set just after it. `exec_id` is
  -- the new random identifier.
  unfoldable pub base_fields :
      BeginString → (exec_id sym : String) → ReportArgs F → List (ℕ × Value D)
  unfolding remaining avg_px_to_fix
  base_fields v exec_id sym a =
      let common : List (ℕ × Value D) =
        (Tag.order_id, text a.order_id)
        ∷ (Tag.exec_id, text exec_id)
        ∷ (Tag.exec_type, text a.exec_type)
        ∷ (Tag.ord_status, text a.ord_status)
        ∷ (Tag.symbol, text sym)
        ∷ (Tag.side, text a.side)
        ∷ (Tag.leaves_qty, dec (remaining a) 4)
        ∷ (Tag.cum_qty, dec (dc.of_float a.cum_qty) 4)
        ∷ avg_px_to_fix a.avg_px
        ∷ [] in
      elim v [ fix42 ↦ (Tag.exec_trans_type, text ExecTransType.status) ∷ common | _ ↦ common ]

  -- The calls of Set that follow, in their order.
  unfoldable pub set_details : ReportArgs F → GenericFix D → GenericFix D
  unfolding report_exec_inst has_flag
  set_details a e0 =
      let amt = dc.of_float a.orig_qty in
      let last_shares = dc.of_float a.this_qty in
      let e1 = set (Tag.account, text a.account) e0 in
      let e2 = set_if (not (dc.is_zero last_shares)) (Tag.last_shares, dec last_shares 4) e1 in
      let e3 = set (Tag.order_qty, dec amt 4) e2 in
      let e4 = set_if (not (a.text == "")) (Tag.text, text a.text) e3 in
      let e5 = set_if a.is_margin (Tag.cash_margin, text CashMargin.margin_close) e4 in
      let e6 = set (Tag.ord_type, text a.ord_type) e5 in
      let e7 = set (Tag.cl_ord_id, text a.cl_ord_id) e6 in
      let limit = a.ord_type == OrdType.limit || a.ord_type == OrdType.stop_limit in
      let e8 =
        set_if (not (fl.eq a.px fl.zero) && limit) (Tag.price, dec (dc.of_float a.px) 4) e7 in
      let stops = a.ord_type == OrdType.stop || a.ord_type == OrdType.stop_limit in
      let e9 =
        set_if (not (fl.eq a.stop fl.zero) && stops) (Tag.stop_px, dec (dc.of_float a.stop) 4) e8 in
      let e10 =
        set_if (not (fl.eq a.trail fl.zero)) (Tag.peg_difference, dec (dc.of_float a.trail) 4) e9 in
      let e11 =
        set_if (has_flag a.flags flag_hidden) (Tag.display_method, text DisplayMethod.undisclosed)
          e10 in
      let inst = report_exec_inst a in
      let e12 = set_if (not (inst == "")) (Tag.exec_inst, text inst) e11 in
      let e13 = set (Tag.time_in_force, text a.tif) e12 in
      set_if (a.tif == TimeInForce.good_till_date) (Tag.expire_time, time a.exp) e13

  -- FIXExecutionReport: `none` is a panic, on another BeginString or in NewFromFloat.
  unfoldable pub fix_execution_report :
      BeginString
      → (exec_id : String) → ReportArgs F
      → Symbology
      → (counterparty : String) → Option (GenericFix D)
  unfolding base_fields set_details new_message is_convertible
  fix_execution_report v exec_id a symbology counterparty =
      let sym = or_same a.symbol (symbology.from_bitfinex a.symbol counterparty) in
      if is_convertible a
      then elim (new_message v execution_report (base_fields v exec_id sym a)) [
        | none ↦ none
        | some e ↦ some (set_details a e)
      ]
      else none
