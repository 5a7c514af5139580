-- ===== src/Outbound/Orders/Fetched.antt =====
-- What becomes of an execution on an order that was not cached.
use mathlib.Core.Path.{subst}
use bfxfixgw.Base.{
  String, ◌≡◌, refl, sym, ap, ◌∙◌, false, Bool-cases, Option, none, some, inl, inr, [], ◌∷◌,
  eq_refl, eq_iff, ◌==◌,
}
use bfxfixgw.Base.Floats.{Floats, Decimals, magnitude}
use bfxfixgw.Base.Int.{ℤ}
use bfxfixgw.Base.Maps.{
  Order as Visits, IsOrder, Distinct, find_first, lookup, assign, lookup-assign,
}
use bfxfixgw.Base.Maps.Entries.{Every-lookup, Every-assign, Distinct-assign}
use bfxfixgw.Base.Maps.Orders.{found, finds}
use bfxfixgw.Base.Text.Decimal.{format_int, format_int_not_empty}
use bfxfixgw.Convert.Fields.{IsVersion}
use bfxfixgw.Convert.Finite.{AreFinite}
use bfxfixgw.Convert.OrderReports.{trade_report_args}
use bfxfixgw.Convert.Reports.{Order, TradeExecutionUpdate, ReportArgs}
use bfxfixgw.Convert.ToFix.{ord_type_to_fix, side_to_fix, time_in_force_to_fix}
use bfxfixgw.Fix.{GenericFix, SessionId}
use bfxfixgw.Outbound.{Handled, send_message}
use bfxfixgw.Outbound.Evolves.{cache-send_message}
use bfxfixgw.Outbound.Orders.{add_known_order, report_execution, fix_trade_execution_update_handler}
use bfxfixgw.Outbound.Survives.{Builds, Tells, send-Tells, trade_report-Builds}
use bfxfixgw.Peer.Cache.{
  Cache, add_order, update_order, add_execution, has_order_id, lookup_by_order_id,
}
use bfxfixgw.Peer.Cache.Unidentified.{HasNone, lookup_by_order_id-HasNone}
use bfxfixgw.Peer.Order.{CachedOrder, append_execution, new_order, filled_qty, avg_fill_px}
use bfxfixgw.Symbol.{Symbology}
use bfxfixgw.World.{Env, Peer, got, asked_order}

module _ {F : Type 0} where
  -- In a map where just one order has the id, a search for the id finds it.
  only_one :
      (r : Visits (CachedOrder F)) (id k : String) (new : CachedOrder F) (c : Cache F)
      → IsOrder r
      → Distinct c.orders
      → HasNone id c
      → new.order_id ≡ id
      → find_first (has_order_id id) (r (assign k new c.orders)) ≡ some (k, new)
  only_one r id k new c v d h named =
      let d' = Distinct-assign k new c.orders d in
      let here : lookup k (assign k new c.orders) ≡ some new = rw (lookup-assign, eq_refl) refl in
      let test = has_order_id id in
      let ((j, x), hit) =
        finds test (assign k new c.orders) d' r v k new here ((eq_iff new.order_id id).1 named) in
      let (at, ok) = found test (assign k new c.orders) d' r v j x hit in
      elim (Bool-cases (k == j)) [
        | inl same ↦
            let e : some new ≡ some x = rw (lookup-assign, same) at at in
            let x_new : x ≡ new = cc e in
            let j_k : j ≡ k = sym ((eq_iff k j).0 same) in hit ∙ cc (x_new, j_k)
        | inr other ↦
            let old : lookup j c.orders ≡ some x = rw (lookup-assign, other) at at in
            let miss = Every-lookup (λ e. has_order_id id e ≡ false) c.orders j x h old in
            absurd (cc (miss, ok))
      ]

module _ {F : Type 0} ⦃fl : Floats F⦄ where
  -- The order that is added for what Bitfinex answers, and the same with its id.
  abbrev added : Order F → (amount : F) → (user : String) → CachedOrder F
  unfolding add_known_order
  added o amount user =
      let (tif, exp) = time_in_force_to_fix o.type o.mts_tif in
      let (ot, is_margin) = ord_type_to_fix o.type in
      new_order (format_int o.cid) o.price o.price_aux_limit o.price_trailing (magnitude o.amount)
        o.symbol user (side_to_fix amount) ot is_margin tif o.mts_tif o.flags

  abbrev identified : Order F → (amount : F) → (user : String) → CachedOrder F
  identified o amount user = record (added o amount user) { order_id = format_int o.id }

  updated_known :
      (o : Order F) (amount : F) (user : String) (c : Cache F)
      → update_order (format_int o.cid) (format_int o.id) (add_known_order o amount user c) ≡ (
        some (identified o amount user),
        record c {
          orders =
              assign
                (format_int o.cid)
                (identified o amount user)
                (assign (format_int o.cid) (added o amount user) c.orders);
        },
      )
  unfolding update_order add_known_order add_order
  updated_known o amount user c =
      let here : lookup (format_int o.cid)
            (assign (format_int o.cid) (added o amount user) c.orders)
          ≡ some (added o amount user) =
        rw (lookup-assign, eq_refl) refl in
      rw (here, update_order) refl

  added-HasNone :
      (o : Order F) (amount : F) (user : String) (z : ℤ) (c : Cache F)
      → HasNone (format_int z) c
      → HasNone (format_int z) (add_known_order o amount user c)
  unfolding add_known_order add_order new_order
  added-HasNone o amount user z c h =
      Every-assign (λ e. has_order_id (format_int z) e ≡ false) (format_int o.cid) _ c.orders h
        (elim (Bool-cases ("" == format_int z)) [
          | inl same ↦ absurd (format_int_not_empty z (sym ((eq_iff "" (format_int z)).0 same)))
          | inr other ↦ other
        ])

  -- The arguments of the report of the execution, with the order as it is cached then.
  abbrev pub execution_args : TradeExecutionUpdate F → String → CachedOrder F → ReportArgs F
  execution_args t user o =
      trade_report_args t user o.cl_ord_id o.qty (filled_qty o) o.px o.stop o.trail (avg_fill_px o)
        o.tif_expiration o.flags

  -- The order that Bitfinex has answered is cached with its id and with the one execution, and the
  -- client has been told of it, or the handler has panicked after that since the report has a number
  -- that is not finite.
  pub record IsRecorded {D : Type 0} (t : TradeExecutionUpdate F) (os : Order F) (p : Peer F D)
      (result : Handled) (p' : Peer F D) : Type 0 where
    pub cached : CachedOrder F
    pub found : lookup (format_int os.cid) p'.cache.orders ≡ some cached
    pub id : cached.order_id ≡ format_int t.order_id
    pub executions :
        cached.executions
        ≡ record {
          bfx_execution_id = format_int t.id;
          px = t.exec_price;
          qty = magnitude t.exec_amount;
        }
          ∷ []
    pub told :
        Tells
          (AreFinite (execution_args t p.bfx_user_id cached))
          result
          (asked_order t.order_id ∷ p.log)
          p'.log

module _ {F D : Type 0} ⦃fl : Floats F⦄ ⦃dc : Decimals F D⦄ where
  -- The send that ends the handler, of a message that is built.
  sent-IsRecorded :
      (env : Env F D) (t : TradeExecutionUpdate F) (os : Order F) (p q : Peer F D)
      (x : Option (GenericFix D)) (cached : CachedOrder F)
      → Builds (AreFinite (execution_args t p.bfx_user_id cached)) x
      → q.log ≡ asked_order t.order_id ∷ p.log
      → lookup (format_int os.cid) q.cache.orders ≡ some cached
      → cached.order_id ≡ format_int t.order_id
      → cached.executions
        ≡ record {
          bfx_execution_id = format_int t.id;
          px = t.exec_price;
          qty = magnitude t.exec_amount;
        }
          ∷ []
      → IsRecorded t os p (send_message env x q).0 (send_message env x q).1
  sent-IsRecorded env t os p q x cached builds logged at named once = record {
    cached = cached;
    found = rw (cache-send_message env x q) at;
    id = named;
    executions = once;
    told =
        subst
          (λ l.
            Tells (AreFinite (execution_args t p.bfx_user_id cached)) (send_message env x q).0 l
              (send_message env x q).1.log)
          logged (send-Tells env x q builds);
  }

  -- An execution on an order that is not cached is never lost, in every version of FIX that the
  -- gateway speaks, if Bitfinex answers for the order with one of the same id: the order is fetched,
  -- it is cached with its id and with just this execution, and one report is sent. If a number of
  -- that report is not finite, the handler panics instead of sending it.
  pub fetched_execution-IsRecorded :
      (env : Env F D) (symbology : Symbology) (session : SessionId) (r r' : Visits (CachedOrder F))
      (t : TradeExecutionUpdate F) (os : Order F) (p : Peer F D)
      → IsVersion session.begin_string
      → IsOrder r
      → IsOrder r'
      → Distinct p.cache.orders
      → lookup_by_order_id r (format_int t.order_id) p.cache ≡ none
      → env.order_by_id p.log t.order_id ≡ got os
      → os.id ≡ t.order_id
      → let (result, p') = fix_trade_execution_update_handler env symbology session r r' t p in
        IsRecorded t os p result p'
  unfolding fix_trade_execution_update_handler report_execution add_execution append_execution
      send_message add_known_order add_order
  fetched_execution-IsRecorded env symbology session r r' t os p v o o' d missing answers same =
      let id = format_int t.order_id in
      let k = format_int os.cid in
      let c1 = add_known_order os t.exec_amount p.bfx_user_id p.cache in
      let new = identified os t.exec_amount p.bfx_user_id in
      let h =
        added-HasNone os t.exec_amount p.bfx_user_id t.order_id p.cache
          (lookup_by_order_id-HasNone r id p.cache o d missing) in
      let d1 = Distinct-assign k (added os t.exec_amount p.bfx_user_id) p.cache.orders d in
      let hit = only_one r' id k new c1 o' d1 h (ap format_int same) in
      let orders = assign k new (assign k (added os t.exec_amount p.bfx_user_id) p.cache.orders) in
      let once = append_execution (format_int t.id) t.exec_price (magnitude t.exec_amount) new in
      let here : lookup k (assign k once orders) ≡ some once = rw (lookup-assign, eq_refl) refl in
      rw (missing, answers, fix_trade_execution_update_handler)
        (rw updated_known (
          rw (hit, report_execution, add_execution)
            (sent-IsRecorded env t os p _ _ once
              (trade_report-Builds _ t _ _ _ _ _ _ _ _ symbology _ _ _ v) refl
              (rw (hit, add_execution) here) (ap format_int same) refl)))
