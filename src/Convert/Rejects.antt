-- ===== src/Convert/Rejects.antt =====
-- What the fields of cancel rejects say.
use bfxfixgw.Base.{String, ◌≡◌, refl, ap, Bool, some, ◌==◌, Bool-cases, inl, inr, if◌then◌else◌}
use bfxfixgw.Convert.Fields.{IsVersion, is_fix42, is_fix44, is_fixt11}
use bfxfixgw.Convert.OrderReports.{fix_order_cancel_reject, reject_reason_from_text}
use bfxfixgw.Convert.Reports.{order_not_found_text, new_message}
use bfxfixgw.Fix.{text, BeginString, GenericFix, set, get, get_in}
use bfxfixgw.Fix.CxlRejReason
use bfxfixgw.Fix.CxlRejResponseTo
use bfxfixgw.Fix.OrdStatus
use bfxfixgw.Fix.Tag

unknown_order :
    (message order_id : String)
    → (if reject_reason_from_text message == CxlRejReason.unknown_order then "NONE" else order_id)
      ≡ (if message == order_not_found_text then "NONE" else order_id)
unfolding reject_reason_from_text
unknown_order message order_id = elim (Bool-cases (message == order_not_found_text)) [
  | inl is_not_found ↦ rw (is_not_found, reject_reason_from_text) refl
  | inr is_other ↦ rw (is_other, reject_reason_from_text) refl
]

module _ {D : Type 0} where
  -- What a cancel reject says to the client.
  pub record Rejects (order_id orig_cl_ord_id cl_ord_id message : String) (is_cancel_replace : Bool)
      (m : GenericFix D) : Type 0 where
    -- an order that Bitfinex does not know has the reason and the order id that FIX asks for
    pub why :
        get Tag.cxl_rej_reason m
        ≡ some (
            text (
              if message == order_not_found_text
              then CxlRejReason.unknown_order
              else CxlRejReason.other))
    pub order :
        get Tag.order_id m
        ≡ some (text (if message == order_not_found_text then "NONE" else order_id))
    -- what the client asked for, by its own ids
    pub response_to :
        get Tag.cxl_rej_response_to m
        ≡ some (
            text (
              if is_cancel_replace
              then CxlRejResponseTo.order_cancel_replace_request
              else CxlRejResponseTo.order_cancel_request))
    pub ids :
        (get Tag.orig_cl_ord_id m ≡ some (text orig_cl_ord_id))
        × (get Tag.cl_ord_id m ≡ some (text cl_ord_id))
    pub status : get Tag.ord_status m ≡ some (text OrdStatus.rejected)
    pub reason : get Tag.text m ≡ some (text message)

  -- In every version of FIX that the gateway speaks, a cancel reject is built. It names what the
  -- client asked for and its ids, and has the reason "unknown order" with the order id NONE exactly
  -- if the text is the one with which Bitfinex says that there is no such order.
  pub cancel_reject-Rejects :
      {v : BeginString} (account order_id orig_cl_ord_id cl_ord_id message : String)
      (is_cancel_replace : Bool)
      → IsVersion v
      → (m : GenericFix D) × (fix_order_cancel_reject v account order_id orig_cl_ord_id cl_ord_id
            message is_cancel_replace
          ≡ some m)
        × Rejects order_id orig_cl_ord_id cl_ord_id message is_cancel_replace m
  unfolding fix_order_cancel_reject reject_reason_from_text new_message set get_in
  cancel_reject-Rejects account order_id orig_cl_ord_id cl_ord_id message is_cancel_replace
        is_fix42 =
      (
        _,
        refl,
        record {
          why = refl;
          order = ap (λ x. some (text x)) (unknown_order message order_id);
          response_to = refl;
          ids = (refl, refl);
          status = refl;
          reason = refl;
        },
      )
  cancel_reject-Rejects account order_id orig_cl_ord_id cl_ord_id message is_cancel_replace
        is_fix44 =
      (
        _,
        refl,
        record {
          why = refl;
          order = ap (λ x. some (text x)) (unknown_order message order_id);
          response_to = refl;
          ids = (refl, refl);
          status = refl;
          reason = refl;
        },
      )
  cancel_reject-Rejects account order_id orig_cl_ord_id cl_ord_id message is_cancel_replace
        is_fixt11 =
      (
        _,
        refl,
        record {
          why = refl;
          order = ap (λ x. some (text x)) (unknown_order message order_id);
          response_to = refl;
          ids = (refl, refl);
          status = refl;
          reason = refl;
        },
      )
