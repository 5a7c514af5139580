-- ===== src/Inbound/Evolves.antt =====
-- What the handlers of order messages in service/fix/fix_msg.go do to the cache of a session.
use mathlib.Core.Path.{subst}
use bfxfixgw.Base.{String, ◌≡◌, refl, sym, Option, Option-cases, inl, inr}
use bfxfixgw.Base.Floats.{Floats, Decimals}
use bfxfixgw.Base.Int.{ℤ}
use bfxfixgw.Base.Maps.{Order as Visits}
use bfxfixgw.Base.Text.Decimal.{format_int, parse_int}
use bfxfixgw.Base.Time.{Time, TimeLayout}
use bfxfixgw.Convert.Reports.{Order}
use bfxfixgw.Fix.{FieldMap, GenericFix, SessionId, Result-cases}
use bfxfixgw.Fix.Tag
use bfxfixgw.Inbound.Cancel.{
  order_cancel_for, read_cancel, target_of, cancel_target, send_cancel_reject, CancelFields, Target,
  unreadable_id, no_order, target,
}
use bfxfixgw.Inbound.CancelReplace.{
  order_cancel_replace_for, replace_order, replace_found, submit_update, find_replaced, read_update,
  cache_update, Update, Found, unreadable, not_found, found_order,
}
use bfxfixgw.Inbound.MarketData.Caches.{cache-send}
use bfxfixgw.Inbound.NewOrder.{
  new_order_for, submit_new_order, cache_new_order, read_new_order, NewOrder,
}
use bfxfixgw.Inbound.Orders.{gen_mts_tif}
use bfxfixgw.Inbound.Status.{order_status_for, cached_or_added}
use bfxfixgw.Peer.Cache.{Cache, lookup_by_order_id}
use bfxfixgw.Peer.Cache.Evolves.{Evolves, unchanged, order_added, order_updated}
use bfxfixgw.Peer.Order.{CachedOrder}
use bfxfixgw.Symbol.{Symbology}
use bfxfixgw.World.{Env, Peer, Answer-cases, send_to_target}

module _ {F D : Type 0} ⦃fl : Floats F⦄ where
  Evolves-send :
      (env : Env F D) (m : Option (GenericFix D)) (c : Cache F) (p : Peer F D)
      → Evolves c p.cache
      → Evolves c (send_to_target env m p).1.cache
  Evolves-send env m c p v = subst (Evolves c) (sym (cache-send env m p)) v

  pub cache-order_cancel_for :
      (format_date : Time → String) (env : Env F D) (session : SessionId) (msg : FieldMap D)
      (p : Peer F D)
      → (order_cancel_for format_date env session msg p).1.cache ≡ p.cache
  unfolding order_cancel_for cancel_target send_cancel_reject
  cache-order_cancel_for format_date env session msg p = elim (Result-cases (read_cancel msg)) [
    | inl (r, e) ↦ rw (e, order_cancel_for) refl
    | inr (q, e) ↦ rw (e, order_cancel_for) (go q (target_of format_date msg q p.cache))
  ]
    where
      go : (q : CancelFields) (t : Target) → (cancel_target env session q t p).1.cache ≡ p.cache
      go q (unreadable_id r) = refl
      go q (no_order id) = cache-send env _ p
      go q (target id oc) = elim (Option-cases (env.send_cancel p.log oc)) [
        | inl fine ↦ rw (fine, cancel_target) refl
        | inr (e, error) ↦ rw (error, cancel_target) (cache-send env _ _)
      ]

module _ {F D : Type 0} ⦃fl : Floats F⦄ ⦃dc : Decimals F D⦄ (env : Env F D) (symbology : Symbology)
    (session : SessionId) (msg : FieldMap D) where
  pub Evolves-order_status_for :
      (r : Visits (CachedOrder F)) (parse_error : String → String) (p : Peer F D)
      → Evolves p.cache (order_status_for r parse_error env symbology session msg p).1.cache
  unfolding order_status_for cached_or_added
  Evolves-order_status_for r parse_error p = elim (Result-cases (msg.get_string Tag.order_id)) [
    | inl (x, e) ↦ rw (e, order_status_for) unchanged
    | inr (oid, e) ↦ elim (Option-cases (parse_int oid)) [
      | inl bad ↦ rw (e, bad, order_status_for) unchanged
      | inr (oidi, good) ↦ elim (Answer-cases (env.order_by_id p.log oidi)) [
        | inl (x, fails) ↦ rw (e, good, fails, order_status_for) unchanged
        | inr (o, answers) ↦
            rw (e, good, answers, order_status_for) (Evolves-send env _ p.cache _ (added o))
      ]
    ]
  ]
    where
      added : (o : Order F) → Evolves p.cache (cached_or_added r o p.bfx_user_id p.cache).1
      added o = elim (Option-cases (lookup_by_order_id r (format_int o.id) p.cache)) [
        | inl missing ↦
            rw (missing, cached_or_added) (order_added _ _ _ _ _ _ _ _ _ _ _ _ _ unchanged)
        | inr (cached, hit) ↦ rw (hit, cached_or_added) unchanged
      ]

  Evolves-submit_new_order :
      (n : NewOrder F) (o : Order F) (p : Peer F D)
      → Evolves p.cache (submit_new_order env symbology session n o p).1.cache
  unfolding submit_new_order cache_new_order
  Evolves-submit_new_order n o p =
      let w : Evolves p.cache (cache_new_order n o p.bfx_user_id p.cache) =
        order_added _ _ _ _ _ _ _ _ _ _ _ _ _ unchanged in
      elim (Option-cases (env.submit_order p.log n.bo)) [
        | inl fine ↦ rw (fine, submit_new_order) w
        | inr (e, error) ↦ rw (error, submit_new_order) (Evolves-send env _ p.cache _ w)
      ]

  pub Evolves-new_order_for :
      (layout : TimeLayout) (p : Peer F D)
      → Evolves p.cache (new_order_for env layout symbology session msg p).1.cache
  unfolding new_order_for
  Evolves-new_order_for layout p =
      elim (Result-cases (read_new_order ⦃dc = dc⦄ layout symbology session msg)) [
        | inl (r, e) ↦ rw (e, new_order_for) unchanged
        | inr (n, e) ↦ elim (Option-cases (gen_mts_tif layout n.bo.time_in_force)) [
          | inl bad ↦ rw (e, bad, new_order_for) unchanged
          | inr (mts, good) ↦ rw (e, good, new_order_for) (Evolves-submit_new_order n _ p)
        ]
      ]

  Evolves-submit_update :
      (u : Update F) (id cid : String) (cidi mts : ℤ) (cache : CachedOrder F) (p : Peer F D)
      → Evolves p.cache (submit_update env symbology session u id cid cidi mts cache p).1.cache
  unfolding submit_update cache_update
  Evolves-submit_update u id cid cidi mts cache p =
      let w : Evolves p.cache (cache_update u id cid cache mts p.bfx_user_id p.cache).1 =
        order_updated _ _ (order_added _ _ _ _ _ _ _ _ _ _ _ _ _ unchanged) in
      elim (Option-cases (cache_update u id cid cache mts p.bfx_user_id p.cache).0) [
        | inl missing ↦ rw (missing, submit_update) w
        | inr (o, hit) ↦ elim (Option-cases (env.submit_update p.log u.ou)) [
          | inl fine ↦ rw (hit, fine, submit_update) w
          | inr (e, error) ↦ rw (hit, error, submit_update) (Evolves-send env _ p.cache _ w)
        ]
      ]

  Evolves-replace_found :
      (layout : TimeLayout) (id cid : String) (idi cidi : ℤ) (cache : CachedOrder F) (p : Peer F D)
      → Evolves p.cache
          (replace_found env layout symbology session msg id cid idi cidi cache p).1.cache
  unfolding replace_found
  Evolves-replace_found layout id cid idi cidi cache p =
      elim (Result-cases (read_update layout msg idi cache)) [
        | inl (r, e) ↦ rw (e, replace_found) unchanged
        | inr (u, e) ↦ elim (Option-cases (gen_mts_tif layout u.ou.time_in_force)) [
          | inl bad ↦ rw (e, bad, replace_found) unchanged
          | inr (mts, good) ↦
              rw (e, good, replace_found) (Evolves-submit_update u id cid cidi mts cache p)
        ]
      ]

  Evolves-replace_order :
      (layout : TimeLayout) (ocid cid : String) (p : Peer F D)
      → Evolves p.cache (replace_order env layout symbology session msg ocid cid p).1.cache
  unfolding replace_order
  Evolves-replace_order layout ocid cid p = go (find_replaced msg ocid cid p.cache) refl
    where
      go :
          (x : Found F)
          → find_replaced msg ocid cid p.cache ≡ x
          → Evolves p.cache (replace_order env layout symbology session msg ocid cid p).1.cache
      go (unreadable r) e = rw (e, replace_order) unchanged
      go (not_found id) e = rw (e, replace_order) (Evolves-send env _ p.cache p unchanged)
      go (found_order id idi cidi cache) e =
          rw (e, replace_order) (Evolves-replace_found layout id cid idi cidi cache p)

  pub Evolves-order_cancel_replace_for :
      (layout : TimeLayout) (p : Peer F D)
      → Evolves p.cache (order_cancel_replace_for env layout symbology session msg p).1.cache
  unfolding order_cancel_replace_for
  Evolves-order_cancel_replace_for layout p =
      elim (Result-cases (msg.get_string Tag.orig_cl_ord_id)) [
        | inl (r, e) ↦ rw (e, order_cancel_replace_for) unchanged
        | inr (ocid, e) ↦ elim (Result-cases (msg.get_string Tag.cl_ord_id)) [
          | inl (r, e') ↦ rw (e, e', order_cancel_replace_for) unchanged
          | inr (cid, e') ↦
              rw (e, e', order_cancel_replace_for) (Evolves-replace_order layout ocid cid p)
        ]
      ]
