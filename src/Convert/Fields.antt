-- ===== src/Convert/Fields.antt =====
-- What the fields of execution reports say.
use Prim.Native.String.{◌++◌ as join}
use bfxfixgw.Base.{
  ℕ, String, ◌≡◌, refl, sym, Bool, true, false, not, ◌&&◌, ◌||◌, Option, none, some, List, [], ◌∷◌,
  arith, ◌==◌, nat_eq, Bool-cases, inl, inr, ◌⊎◌, if◌then◌else◌,
}
use bfxfixgw.Base.Floats.{Floats, Decimals}
use bfxfixgw.Convert.Finite.{AreFinite, convertible-cases}
use bfxfixgw.Convert.FromFix.{or_same}
use bfxfixgw.Convert.Reports.{
  ReportArgs, new_message, set_if, remaining, leaves_nothing, base_fields, is_convertible,
  set_details, report_exec_inst, fix_execution_report,
}
use bfxfixgw.Convert.ToFix.{has_flag, flag_hidden, flag_post_only}
use bfxfixgw.Fix.{
  Value, text, dec, time, BeginString, fix42, fix44, fixt11, GenericFix, set, get, get_in,
  execution_report,
}
use bfxfixgw.Fix.CashMargin
use bfxfixgw.Fix.DisplayMethod
use bfxfixgw.Fix.ExecInst
use bfxfixgw.Fix.OrdStatus
use bfxfixgw.Fix.OrdType
use bfxfixgw.Fix.Tag
use bfxfixgw.Fix.TimeInForce
use bfxfixgw.Symbol.{Symbology}

-- The BeginStrings that the gateway builds messages for.
pub data IsVersion : BeginString → Type 0 where
  is_fix42 : IsVersion fix42
  is_fix44 : IsVersion fix44
  is_fixt11 : IsVersion fixt11

module _ {D : Type 0} where
  abbrev pub when : Bool → Value D → Option (Value D)
  when b v = if b then some v else none

  -- Calls of Set under a condition, the last one in front.
  abbrev apply_all : List (Bool × ℕ × Value D) → GenericFix D → GenericFix D
  apply_all [] m = m
  apply_all ((b, t, v) ∷ l) m = set_if b (t, v) (apply_all l m)

  abbrev last_of : ℕ → List (Bool × ℕ × Value D) → Option (Value D) → Option (Value D)
  last_of tag [] x = x
  last_of tag ((b, t, v) ∷ l) x = if nat_eq t tag && b then some v else last_of tag l x

  get-apply_all :
      (tag : ℕ) (l : List (Bool × ℕ × Value D)) (m : GenericFix D)
      → get tag (apply_all l m) ≡ last_of tag l (get tag m)
  unfolding get_in set
  get-apply_all tag [] m = refl
  get-apply_all tag ((true, t, v) ∷ l) m = rw (sym (get-apply_all tag l m)) (ground arith)
  get-apply_all tag ((false, t, v) ∷ l) m = rw (sym (get-apply_all tag l m)) (ground arith)

module _ {F D : Type 0} ⦃fl : Floats F⦄ ⦃dc : Decimals F D⦄ where
  -- What an execution report says of an order.
  pub record Says (a : ReportArgs F) (m : GenericFix D) : Type 0 where
    -- nothing remains of an order that has ended, else what has not been filled
    pub leaves :
        get Tag.leaves_qty m
        ≡ some (
            dec
              (if a.ord_status == OrdStatus.canceled
                  || a.ord_status == OrdStatus.done_for_day
                  || a.ord_status == OrdStatus.expired
                  || a.ord_status == OrdStatus.replaced
                  || a.ord_status == OrdStatus.stopped
                  || a.ord_status == OrdStatus.suspended
                then dc.zero
                else dc.sub (dc.of_float a.orig_qty) (dc.of_float a.cum_qty))
              4)
    pub cum : get Tag.cum_qty m ≡ some (dec (dc.of_float a.cum_qty) 4)
    pub status :
        (get Tag.ord_status m ≡ some (text a.ord_status))
        × (get Tag.exec_type m ≡ some (text a.exec_type))
    pub ids :
        (get Tag.order_id m ≡ some (text a.order_id))
        × (get Tag.cl_ord_id m ≡ some (text a.cl_ord_id))
    -- a limit price only for the order types that have one, and a stop price likewise
    pub price :
        get Tag.price m
        ≡ when
            (not (fl.eq a.px fl.zero)
              && (a.ord_type == OrdType.limit || a.ord_type == OrdType.stop_limit))
            (dec (dc.of_float a.px) 4)
    pub stop :
        get Tag.stop_px m
        ≡ when
            (not (fl.eq a.stop fl.zero)
              && (a.ord_type == OrdType.stop || a.ord_type == OrdType.stop_limit))
            (dec (dc.of_float a.stop) 4)
    pub peg :
        get Tag.peg_difference m ≡ when (not (fl.eq a.trail fl.zero)) (dec (dc.of_float a.trail) 4)
    -- an expiry exactly with the time in force that has one
    pub expiry : get Tag.expire_time m ≡ when (a.tif == TimeInForce.good_till_date) (time a.exp)
    -- pegged if it trails, and post only by its flag
    pub inst : get Tag.exec_inst m ≡ (
        if not (fl.eq a.trail fl.zero)
        then (if has_flag a.flags flag_post_only
            then some (text (join ExecInst.primary_peg ExecInst.participant_dont_initiate))
            else some (text ExecInst.primary_peg))
        else (if has_flag a.flags flag_post_only
            then some (text ExecInst.participant_dont_initiate)
            else none))
    pub hidden :
        get Tag.display_method m
        ≡ when (has_flag a.flags flag_hidden) (text DisplayMethod.undisclosed)

  abbrev details : ReportArgs F → List (Bool × ℕ × Value D)
  details a =
      let limit = a.ord_type == OrdType.limit || a.ord_type == OrdType.stop_limit in
      let stops = a.ord_type == OrdType.stop || a.ord_type == OrdType.stop_limit in
      let inst = report_exec_inst a in
      (a.tif == TimeInForce.good_till_date, Tag.expire_time, time a.exp)
      ∷ (true, Tag.time_in_force, text a.tif)
      ∷ (not (inst == ""), Tag.exec_inst, text inst)
      ∷ (has_flag a.flags flag_hidden, Tag.display_method, text DisplayMethod.undisclosed)
      ∷ (not (fl.eq a.trail fl.zero), Tag.peg_difference, dec (dc.of_float a.trail) 4)
      ∷ (not (fl.eq a.stop fl.zero) && stops, Tag.stop_px, dec (dc.of_float a.stop) 4)
      ∷ (not (fl.eq a.px fl.zero) && limit, Tag.price, dec (dc.of_float a.px) 4)
      ∷ (true, Tag.cl_ord_id, text a.cl_ord_id)
      ∷ (true, Tag.ord_type, text a.ord_type)
      ∷ (a.is_margin, Tag.cash_margin, text CashMargin.margin_close)
      ∷ (not (a.text == ""), Tag.text, text a.text)
      ∷ (true, Tag.order_qty, dec (dc.of_float a.orig_qty) 4)
      ∷ (not (dc.is_zero (dc.of_float a.this_qty)), Tag.last_shares, dec (dc.of_float a.this_qty) 4)
      ∷ (true, Tag.account, text a.account)
      ∷ []

  get-set_details :
      (a : ReportArgs F) (e : GenericFix D) (tag : ℕ)
      → get tag (set_details a e) ≡ last_of tag (details a) (get tag e)
  unfolding set_details
  get-set_details a e tag = get-apply_all tag (details a) e

  inst_value :
      (a : ReportArgs F)
      → when {D = D} (not (report_exec_inst a == "")) (text (report_exec_inst a)) ≡ (
          if not (fl.eq a.trail fl.zero)
          then (if has_flag a.flags flag_post_only
              then some (text (join ExecInst.primary_peg ExecInst.participant_dont_initiate))
              else some (text ExecInst.primary_peg))
          else (if has_flag a.flags flag_post_only
              then some (text ExecInst.participant_dont_initiate)
              else none))
  unfolding report_exec_inst
  inst_value a = elim (Bool-cases (fl.eq a.trail fl.zero)) [
    | inl still ↦ elim (Bool-cases (has_flag a.flags flag_post_only)) [
      | inl post ↦ rw (still, post, report_exec_inst) refl
      | inr takes ↦ rw (still, takes, report_exec_inst) refl
    ]
    | inr trails ↦ elim (Bool-cases (has_flag a.flags flag_post_only)) [
      | inl post ↦ rw (trails, post, report_exec_inst) refl
      | inr takes ↦ rw (trails, takes, report_exec_inst) refl
    ]
  ]

  -- The constructors of the versions differ in one field.
  get_in-base_fields :
      {v : BeginString} (exec_id sym : String) (a : ReportArgs F) (e : GenericFix D) (tag : ℕ)
      → IsVersion v
      → e.fields ≡ base_fields v exec_id sym a
      → nat_eq Tag.exec_trans_type tag ≡ false
      → get tag e ≡ get_in tag (base_fields fix44 exec_id sym a)
  unfolding base_fields get_in
  get_in-base_fields exec_id sym a e tag is_fix42 h n = rw (h, n) refl
  get_in-base_fields exec_id sym a e tag is_fix44 h n = rw h refl
  get_in-base_fields exec_id sym a e tag is_fixt11 h n = rw h refl

  Says-details :
      {v : BeginString} (exec_id sym : String) (a : ReportArgs F) (e : GenericFix D)
      → IsVersion v
      → e.fields ≡ base_fields v exec_id sym a
      → Says a (set_details a e)
  unfolding base_fields get_in remaining leaves_nothing
  Says-details exec_id sym a e s h =
      let base : (tag : ℕ)
          → nat_eq Tag.exec_trans_type tag ≡ false
          → get tag e ≡ get_in tag (base_fields fix44 exec_id sym a) =
        λ tag. get_in-base_fields exec_id sym a e tag s h in
      record {
        leaves = rw (get-set_details, base Tag.leaves_qty refl) refl;
        cum = rw (get-set_details, base Tag.cum_qty refl) refl;
        status = (
          rw (get-set_details, base Tag.ord_status refl) refl,
          rw (get-set_details, base Tag.exec_type refl) refl,
        );
        ids = (rw (get-set_details, base Tag.order_id refl) refl, rw get-set_details refl);
        price = rw (get-set_details, base Tag.price refl) refl;
        stop = rw (get-set_details, base Tag.stop_px refl) refl;
        peg = rw (get-set_details, base Tag.peg_difference refl) refl;
        expiry = rw (get-set_details, base Tag.expire_time refl) refl;
        inst = rw (get-set_details, base Tag.exec_inst refl) (inst_value a);
        hidden = rw (get-set_details, base Tag.display_method refl) refl;
      }

  -- The report, as its constructor returns it.
  abbrev constructed :
      BeginString
      → (exec_id : String) → ReportArgs F
      → Symbology
      → (counterparty : String) → GenericFix D
  constructed v exec_id a symbology counterparty = record {
    version = v;
    kind = execution_report;
    fields =
        base_fields v exec_id (or_same a.symbol (symbology.from_bitfinex a.symbol counterparty)) a;
    group = [];
  }

  built :
      {v : BeginString} (exec_id : String) (a : ReportArgs F) (symbology : Symbology)
      (counterparty : String)
      → IsVersion v
      → is_convertible a ≡ true
      → fix_execution_report v exec_id a symbology counterparty
        ≡ some (set_details a (constructed v exec_id a symbology counterparty))
  unfolding fix_execution_report new_message
  built exec_id a symbology counterparty is_fix42 good = rw (good, fix_execution_report) refl
  built exec_id a symbology counterparty is_fix44 good = rw (good, fix_execution_report) refl
  built exec_id a symbology counterparty is_fixt11 good = rw (good, fix_execution_report) refl

  -- In every version of FIX that the gateway speaks, FIXExecutionReport builds a report if every
  -- number that it converts is finite, and panics otherwise. The fields of the report say what
  -- `Says` lists: what remains of the order, which is nothing exactly for the six statuses of an
  -- order that has ended, its status and ids, the limit and stop prices only for order types that
  -- have them, and an expiry exactly for good-till-date orders.
  pub execution_report-Says :
      {v : BeginString} (exec_id : String) (a : ReportArgs F) (symbology : Symbology)
      (counterparty : String)
      → IsVersion v
      → (AreFinite a
          × (m : GenericFix D) × (fix_execution_report v exec_id a symbology counterparty ≡ some m)
          × Says a m)
        ⊎ (¬ (AreFinite a)
            × (fix_execution_report {D = D} v exec_id a symbology counterparty ≡ none))
  unfolding fix_execution_report new_message
  execution_report-Says exec_id a symbology counterparty v = elim (convertible-cases a) [
    | inl (good, finite) ↦ inl (
      finite,
      _,
      built exec_id a symbology counterparty v good,
      Says-details exec_id _ a _ v refl,
    )
    | inr (bad, not_finite) ↦ inr (not_finite, rw (bad, fix_execution_report) refl)
  ]
