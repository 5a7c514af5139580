-- ===== src/Inbound/Status/Unidentified.antt =====
-- What a status request leaves of an order that was not cached.
use mathlib.Core.Path.{subst}
use bfxfixgw.Base.{String, ◌≡◌, refl, sym, ap, none, some, [], eq_refl}
use bfxfixgw.Base.Floats.{Floats, Decimals}
use bfxfixgw.Base.Int.{ℤ}
use bfxfixgw.Base.Maps.{Order as Visits, IsOrder, lookup-assign, Distinct}
use bfxfixgw.Base.Text.Decimal.{format_int, parse_int}
use bfxfixgw.Convert.Reports.{Order}
use bfxfixgw.Convert.ToFix.{ord_type_to_fix, side_to_fix, time_in_force_to_fix}
use bfxfixgw.Fix.{FieldMap, SessionId, ok}
use bfxfixgw.Fix.Tag
use bfxfixgw.Inbound.MarketData.Caches.{cache-send}
use bfxfixgw.Inbound.Status.{order_status_for, cached_or_added}
use bfxfixgw.Peer.Cache.{Cache, add_order, lookup_by_order_id, lookup_by_cl_ord_id, value_of}
use bfxfixgw.Peer.Cache.Unidentified.{lookup_by_order_id-HasNone, find_first-unidentified}
use bfxfixgw.Peer.Order.{CachedOrder, new_order}
use bfxfixgw.Symbol.{Symbology}
use bfxfixgw.World.{Env, Peer, got}

module _ {F : Type 0} ⦃fl : Floats F⦄ where
  -- The order is cached under its ClOrdID, with no execution, but is not found by its order id.
  abbrev pub IsUnidentified : Visits (CachedOrder F) → Order F → Cache F → Type 0
  IsUnidentified r o c =
      (lookup_by_order_id r (format_int o.id) c ≡ none)
      × ((cached : CachedOrder F) × (lookup_by_cl_ord_id (format_int o.cid) c ≡ some cached)
          × (cached.executions ≡ []))

  -- The order that is added.
  abbrev added : Order F → (bfx_user_id : String) → Cache F → CachedOrder F
  unfolding add_order
  added o user c =
      let (tif, exp) = time_in_force_to_fix o.type o.mts_tif in
      let (ot, is_margin) = ord_type_to_fix o.type in
      (add_order (format_int o.cid) o.price o.price_aux_limit o.price_trailing o.amount o.symbol
        user (side_to_fix o.amount) ot is_margin tif o.mts_tif o.flags c).0

  added-IsUnidentified :
      (r r' : Visits (CachedOrder F)) (o : Order F) (user : String) (c : Cache F)
      → IsOrder r
      → IsOrder r'
      → Distinct c.orders
      → lookup_by_order_id r (format_int o.id) c ≡ none
      → IsUnidentified r' o (cached_or_added r o user c).1
  unfolding cached_or_added lookup_by_cl_ord_id lookup_by_order_id add_order new_order
  added-IsUnidentified r r' o user c v v' d missing =
      let h = lookup_by_order_id-HasNone r (format_int o.id) c v d missing in
      let nothing =
        find_first-unidentified r' o.id (format_int o.cid) (added o user c) c v' d h refl in
      rw (missing, cached_or_added)
        (ap value_of nothing, (added o user c, rw (lookup-assign, eq_refl) refl, refl))

module _ {F D : Type 0} ⦃fl : Floats F⦄ ⦃dc : Decimals F D⦄ where
  -- A status request for an order that is not cached, and that Bitfinex knows, adds it without its
  -- order id: it is then cached under its ClOrdID, without executions, and is still not found by
  -- its order id, in whatever order Go ranges over the orders.
  pub order_status-IsUnidentified :
      (r r' : Visits (CachedOrder F)) (parse_error : String → String) (env : Env F D)
      (symbology : Symbology) (session : SessionId) (msg : FieldMap D) (p : Peer F D) (oid : String)
      (oidi : ℤ) (o : Order F)
      → IsOrder r
      → IsOrder r'
      → Distinct p.cache.orders
      → msg.get_string Tag.order_id ≡ ok oid
      → parse_int oid ≡ some oidi
      → env.order_by_id p.log oidi ≡ got o
      → lookup_by_order_id r (format_int o.id) p.cache ≡ none
      → IsUnidentified r' o (order_status_for r parse_error env symbology session msg p).1.cache
  unfolding order_status_for
  order_status-IsUnidentified r r' parse_error env symbology session msg p oid oidi o v v' d e1 e2
        e3 e4 =
      let w = added-IsUnidentified r r' o p.bfx_user_id p.cache v v' d e4 in
      rw (e1, e2, e3, order_status_for) (subst (IsUnidentified r' o) (sym (cache-send env _ _)) w)
