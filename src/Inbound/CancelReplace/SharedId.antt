-- ===== src/Inbound/CancelReplace/SharedId.antt =====
-- What OnFIXOrderCancelReplaceRequest leaves in the cache.
use mathlib.Core.Path.{subst}
use bfxfixgw.Base.{
  String, ◌≡◌, refl, sym, ap, ◌∙◌, false, Option, none, some, ◌==◌, arith, eq_iff, Bool-cases,
  Option-cases, inl, inr,
}
use bfxfixgw.Base.Floats.{Floats, Decimals}
use bfxfixgw.Base.Int.{ℤ}
use bfxfixgw.Base.Maps.{lookup, lookup-assign}
use bfxfixgw.Base.Time.{TimeLayout}
use bfxfixgw.Fix.{FieldMap, SessionId, ok, Result-cases}
use bfxfixgw.Fix.Tag
use bfxfixgw.Inbound.CancelReplace.{
  found_order, Update, with_id, check_ids, find_replaced, read_update, cache_update, submit_update,
  replace_found, replace_order,
}
use bfxfixgw.Inbound.MarketData.Caches.{cache-send}
use bfxfixgw.Inbound.Orders.{gen_mts_tif, gen_flags}
use bfxfixgw.Peer.Cache.{Cache, add_order, update_order, lookup_by_cl_ord_id}
use bfxfixgw.Peer.Order.{CachedOrder}
use bfxfixgw.Symbol.{Symbology}
use bfxfixgw.World.{Env, Peer}

module _ {F : Type 0} where
  -- Some cached order has the key and the id.
  abbrev pub HasId : (key id : String) → Cache F → Type 0
  HasId key id c = (o : CachedOrder F) × (lookup key c.orders ≡ some o) × (o.order_id ≡ id)

  check_ids-found :
      (id ocid cid i : String) (idi cidi : ℤ) (x : Option (CachedOrder F)) (o : CachedOrder F)
      → check_ids id ocid cid x ≡ found_order i idi cidi o
      → (x ≡ some o) × (i ≡ id)
  unfolding check_ids
  check_ids-found id ocid cid i idi cidi x o h = ground arith

  with_id-some :
      (id : String) (x : Option (CachedOrder F)) (o : CachedOrder F)
      → with_id id x ≡ some o
      → (x ≡ some o) × (o.order_id ≡ id)
  with_id-some id none o h = ground arith
  with_id-some id (some w) o h = elim (Bool-cases (w.order_id == id)) [
    | inl same ↦
        let w_is : w ≡ o = cc (rw same at h) in
        (ap some w_is, subst (λ x. x.order_id ≡ id) w_is ((eq_iff w.order_id id).0 same))
    | inr other ↦ cc (rw other at h)
  ]

  -- Only an order that is cached under the original ClOrdID and has the id is found.
  find_replaced-found :
      {D : Type 0} (msg : FieldMap D) (ocid cid id : String) (idi cidi : ℤ) (o : CachedOrder F)
      (c : Cache F)
      → find_replaced msg ocid cid c ≡ found_order id idi cidi o
      → (lookup ocid c.orders ≡ some o) × (o.order_id ≡ id)
  unfolding find_replaced lookup_by_cl_ord_id
  find_replaced-found msg ocid cid id idi cidi o c h = elim (Bool-cases (msg.has Tag.order_id)) [
    | inl by_id ↦ elim (Result-cases (msg.get_string Tag.order_id)) [
      | inl (r, e) ↦ cc (rw (by_id, e) at h)
      | inr (i, e) ↦
          let (at, same) =
            check_ids-found i ocid cid id idi cidi (with_id i (lookup ocid c.orders)) o
              (rw (by_id, e) at h) in
          let (there, is) = with_id-some i (lookup ocid c.orders) o at in (there, is ∙ sym same)
    ]
    | inr by_key ↦ elim (Option-cases (lookup ocid c.orders)) [
      | inl missing ↦ cc (rw (by_key, missing) at h)
      | inr (w, e) ↦
          let (at, same) =
            check_ids-found w.order_id ocid cid id idi cidi (some w) o (rw (by_key, e) at h) in
          let w_is : w ≡ o = cc at in
          (e ∙ at, subst (λ (x : CachedOrder F). x.order_id ≡ id) w_is (sym same))
    ]
  ]

  update_order-HasId :
      (cid id ocid : String) (c : Cache F) (n : CachedOrder F)
      → (cid == ocid) ≡ false
      → lookup cid c.orders ≡ some n
      → HasId ocid id c
      → let (x, c') = update_order cid id c in
        ((o : CachedOrder F) × (x ≡ some o)) × HasId cid id c' × HasId ocid id c'
  unfolding update_order
  update_order-HasId cid id ocid c n other new (o, at, is) =
      let n' : CachedOrder F = record n { order_id = id } in
      rw (new, update_order)
        (
          (n', refl),
          (n', rw (lookup-assign, (eq_iff cid cid).1 refl), refl),
          (o, rw (lookup-assign, other) at, is),
        )

module _ {F : Type 0} ⦃fl : Floats F⦄ where
  cache_update-HasId :
      (u : Update F) (id cid ocid : String) (cache : CachedOrder F) (mts : ℤ) (user : String)
      (c : Cache F)
      → (cid == ocid) ≡ false
      → HasId ocid id c
      → let (x, c') = cache_update u id cid cache mts user c in
        ((o : CachedOrder F) × (x ≡ some o)) × HasId cid id c' × HasId ocid id c'
  unfolding cache_update add_order
  cache_update-HasId u id cid ocid cache mts user c other (o, at, is) =
      let ou = u.ou in
      let (n, c1) =
        add_order cid ou.price ou.price_aux_limit ou.price_trailing ou.amount cache.symbol user
          cache.side u.t cache.is_margin u.tif mts (gen_flags ou.hidden ou.post_only) c in
      update_order-HasId cid id ocid c1 n other (rw (lookup-assign, (eq_iff cid cid).1 refl))
        (o, rw (lookup-assign, other) at, is)

module _ {F D : Type 0} ⦃fl : Floats F⦄ ⦃dc : Decimals F D⦄ where
  cache-submit_update :
      (env : Env F D) (symbology : Symbology) (session : SessionId) (u : Update F) (id cid : String)
      (cidi mts : ℤ) (cache : CachedOrder F) (p : Peer F D) (n : CachedOrder F)
      → (cache_update u id cid cache mts p.bfx_user_id p.cache).0 ≡ some n
      → (submit_update env symbology session u id cid cidi mts cache p).1.cache
        ≡ (cache_update u id cid cache mts p.bfx_user_id p.cache).1
  unfolding submit_update
  cache-submit_update env symbology session u id cid cidi mts cache p n h =
      elim (Option-cases (env.submit_update p.log u.ou)) [
        | inl accepted ↦ rw (h, submit_update) (rw accepted refl)
        | inr (e, failed) ↦ rw (h, submit_update) (rw failed (cache-send env _ _))
      ]

  -- A replacement under a new ClOrdID that can be read leaves two cached orders with the one order
  -- id: the new one, and the order that it replaces.
  pub replace_order-HasId :
      (env : Env F D) (layout : TimeLayout) (symbology : Symbology) (session : SessionId)
      (msg : FieldMap D) (ocid cid id : String) (idi cidi mts : ℤ) (o : CachedOrder F)
      (u : Update F) (p : Peer F D)
      → (cid == ocid) ≡ false
      → find_replaced msg ocid cid p.cache ≡ found_order id idi cidi o
      → read_update layout msg idi o ≡ ok u
      → gen_mts_tif layout u.ou.time_in_force ≡ some mts
      → let c' = (replace_order env layout symbology session msg ocid cid p).1.cache in
        HasId cid id c' × HasId ocid id c'
  unfolding replace_order replace_found
  replace_order-HasId env layout symbology session msg ocid cid id idi cidi mts o u p other found
        read dated =
      let (there, is) = find_replaced-found msg ocid cid id idi cidi o p.cache found in
      let ((n, e), new, old) =
        cache_update-HasId u id cid ocid o mts p.bfx_user_id p.cache other (o, there, is) in
      let same : (replace_order env layout symbology session msg ocid cid p).1.cache
          ≡ (cache_update u id cid o mts p.bfx_user_id p.cache).1 =
        rw (found, replace_order)
          (rw (read, replace_found)
            (rw dated (cache-submit_update env symbology session u id cid cidi mts o p n e))) in
      subst (λ c. HasId cid id c × HasId ocid id c) (sym same) (new, old)
