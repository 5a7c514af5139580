-- ===== src/Outbound/Orders/Cancels.antt =====
-- Which ends of orders FIXOrderCancelHandler tells the client.
use mathlib.Core.Path.{subst}
use bfxfixgw.Base.{
  String, ◌≡◌, refl, sym, ap, Bool, true, false, ◌||◌, Option, some, ◌==◌, Bool-cases, inl, inr,
  ◌⊎◌,
}
use bfxfixgw.Base.Floats.{Floats, Decimals}
use bfxfixgw.Base.Maps.{Order as Visits}
use bfxfixgw.Base.Text.{contains}
use bfxfixgw.Base.Text.Decimal.{format_int}
use bfxfixgw.Convert.Fields.{IsVersion}
use bfxfixgw.Convert.Finite.{AreFinite}
use bfxfixgw.Convert.OrderReports.{fix_execution_report_from_order, order_report_args}
use bfxfixgw.Convert.Reports.{Order, ReportArgs}
use bfxfixgw.Convert.ToFix.{
  exec_type_to_fix, ord_status_to_fix, status_executed, status_partially_filled, status_canceled,
}
use bfxfixgw.Fix.{SessionId, GenericFix}
use bfxfixgw.Fix.OrdStatus
use bfxfixgw.Outbound.{handled, send_message}
use bfxfixgw.Outbound.Orders.{fix_order_cancel_handler}
use bfxfixgw.Outbound.Survives.{Tells, send-Tells, order_report-Builds}
use bfxfixgw.Peer.Cache.{lookup_by_order_id}
use bfxfixgw.Peer.Order.{CachedOrder, filled_qty}
use bfxfixgw.Symbol.{Symbology}
use bfxfixgw.World.{Env, Peer}

-- The text of a status tells of a fill.
abbrev pub tells_of_fill : String → Bool
tells_of_fill s = contains s status_executed || contains s status_partially_filled

abbrev is_fill : String → Bool
is_fill s = s == OrdStatus.filled || s == OrdStatus.partially_filled

fill_status : (s : String) → is_fill (ord_status_to_fix s) ≡ tells_of_fill s
unfolding ord_status_to_fix
fill_status s = elim (Bool-cases (contains s status_executed)) [
  | inl executed ↦ rw (executed, ord_status_to_fix) refl
  | inr unfilled ↦ elim (Bool-cases (contains s status_partially_filled)) [
    | inl part ↦ rw (unfilled, part, ord_status_to_fix) refl
    | inr whole ↦ elim (Bool-cases (contains s status_canceled)) [
      | inl cancel ↦ rw (unfilled, whole, cancel, ord_status_to_fix) refl
      | inr other ↦ rw (unfilled, whole, other, ord_status_to_fix) refl
    ]
  ]
]

module _ {F : Type 0} ⦃fl : Floats F⦄ where
  -- The arguments of the report on the end of an order.
  abbrev pub report_args : Order F → CachedOrder F → (user : String) → ReportArgs F
  report_args o cached user =
      order_report_args o user (exec_type_to_fix o.status) (filled_qty cached)
        (ord_status_to_fix o.status) o.status cached.flags fl.zero cached.trail

module _ {F D : Type 0} ⦃fl : Floats F⦄ ⦃dc : Decimals F D⦄ (env : Env F D) (symbology : Symbology)
    (session : SessionId) where
  abbrev report : Order F → CachedOrder F → Peer F D → Option (GenericFix D)
  report o cached p =
      fix_execution_report_from_order session.begin_string (env.new_uuid p.log) o p.bfx_user_id
        (exec_type_to_fix o.status) (filled_qty cached) (ord_status_to_fix o.status) o.status
        symbology session.target_comp_id cached.flags fl.zero cached.trail

  -- If the order that has ended is cached, in every version of FIX that the gateway speaks: where
  -- the text of its status tells of a fill anywhere in it, nothing is sent, and otherwise just one
  -- report is, so that a cancel whose text also tells of a partial fill is not reported. If a number
  -- of that report is not finite, the handler panics instead.
  pub cancel_of_fill_untold :
      (r : Visits (CachedOrder F)) (o : Order F) (p : Peer F D) (cached : CachedOrder F)
      → IsVersion session.begin_string
      → lookup_by_order_id r (format_int o.id) p.cache ≡ some cached
      → let (result, p') = fix_order_cancel_handler env symbology session r o p in
        ((tells_of_fill o.status ≡ true) × (result ≡ handled) × (p' ≡ p))
        ⊎ ((tells_of_fill o.status ≡ false)
            × Tells (AreFinite (report_args o cached p.bfx_user_id)) result p.log p'.log)
  unfolding fix_order_cancel_handler
  cancel_of_fill_untold r o p cached v hit = elim (Bool-cases (tells_of_fill o.status)) [
    | inl fill ↦
        let same : fix_order_cancel_handler env symbology session r o p ≡ (handled, p) =
          rw (hit, fix_order_cancel_handler) (rw (fill_status o.status, fill) refl) in
        inl (fill, ap (λ x. x.0) same, ap (λ x. x.1) same)
    | inr plain ↦
        let same : fix_order_cancel_handler env symbology session r o p
            ≡ send_message env (report o cached p) p =
          rw (hit, fix_order_cancel_handler) (rw (fill_status o.status, plain) refl) in
        let w = send-Tells env _ p (order_report-Builds _ o _ _ _ _ _ symbology _ _ _ _ v) in
        inr (
          plain,
          subst (λ x. Tells (AreFinite (report_args o cached p.bfx_user_id)) x.0 p.log x.1.log)
              (sym same) w,
        )
  ]
