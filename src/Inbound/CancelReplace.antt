-- ===== src/Inbound/CancelReplace.antt =====
-- OnFIXOrderCancelReplaceRequest of service/fix/fix_msg.go.
pub mod SharedId
use bfxfixgw.Base.{
  ℕ, String, Bool, true, false, Option, none, some, List, [], ◌∷◌, ◌==◌, if◌then◌else◌,
}
use bfxfixgw.Base.Floats.{Floats, Decimals}
use bfxfixgw.Base.Int.{ℤ, pos}
use bfxfixgw.Base.Text.Decimal.{parse_int}
use bfxfixgw.Base.Time.{TimeLayout}
use bfxfixgw.Convert.FromFix.{
  get_amount_from_qty_and_side, get_flags_from_fix, get_prices_from_ord_type,
  get_time_in_force_from_fix, order_new_type_from_fix,
}
use bfxfixgw.Convert.OrderReports.{fix_execution_report_from_order, fix_order_cancel_reject}
use bfxfixgw.Convert.Reports.{Order, order_not_found_text}
use bfxfixgw.Fix.{FieldMap, SessionId, Result, Reject, ok, err, ◌>>=◌}
use bfxfixgw.Fix.ExecType
use bfxfixgw.Fix.OrdStatus
use bfxfixgw.Fix.Tag
use bfxfixgw.Inbound.NewOrder.{get_leverage}
use bfxfixgw.Inbound.Orders.{gen_flags, gen_mts_tif, update_to_order}
use bfxfixgw.Peer.Cache.{Cache, add_order, update_order, lookup_by_cl_ord_id}
use bfxfixgw.Peer.Order.{CachedOrder}
use bfxfixgw.Symbol.{Symbology}
use bfxfixgw.World.{
  Env, Peer, Outcome, done, rejected, panicked, note, OrderUpdateRequest, updated, send_to_target,
}

-- The order that a request names: the message cannot be read, there is no such order and the
-- reject names the id, or its id and the numbers of the two ids.
pub data Found (F : Type 0) : Type 0 where
  unreadable : Reject → Found F
  not_found : (id : String) → Found F
  found_order : (id : String) (idi cidi : ℤ) → CachedOrder F → Found F

-- What the handler reads of the update.
pub record Update (F : Type 0) : Type 0 where
  pub ou : OrderUpdateRequest F
  pub t : String
  pub tif : String
  pub typ : String

module _ {F : Type 0} where
  -- The cached order, if it has the id.
  abbrev pub with_id : String → Option (CachedOrder F) → Option (CachedOrder F)
  with_id id none = none
  with_id id (some o) = if o.order_id == id then some o else none

  -- The ids have to be numbers, and the order has to be cached.
  unfoldable pub check_ids : (id ocid cid : String) → Option (CachedOrder F) → Found F
  check_ids id ocid cid cache = elim (parse_int cid) [
    | none ↦ not_found id
    | some cidi ↦ elim (parse_int id) [
      | none ↦ not_found id
      | some idi ↦ elim (parse_int ocid) [
        | none ↦ not_found id
        | some n ↦ elim cache [ none ↦ not_found id | some o ↦ found_order id idi cidi o ]
      ]
    ]
  ]

  unfoldable pub find_replaced : {D : Type 0} → FieldMap D → (ocid cid : String) → Cache F → Found F
  unfolding check_ids lookup_by_cl_ord_id
  find_replaced msg ocid cid c =
      if msg.has Tag.order_id
      then elim (msg.get_string Tag.order_id) [
        | err r ↦ unreadable r
        | ok id ↦ check_ids id ocid cid (with_id id (lookup_by_cl_ord_id ocid c))
      ]
      else elim (lookup_by_cl_ord_id ocid c) [
        | none ↦ not_found ""
        | some o ↦ check_ids o.order_id ocid cid (some o)
      ]

module _ {F : Type 0} ⦃fl : Floats F⦄ where
  -- p.AddOrder(…) with the new ClOrdID, then p.UpdateOrder(…) with the order id
  unfoldable pub cache_update :
      Update F
      → (id cid : String) → (cache : CachedOrder F) → (mts : ℤ) → (bfx_user_id : String) → Cache F
      → Option (CachedOrder F) × Cache F
  unfolding add_order update_order
  cache_update u id cid cache mts user c =
      let ou = u.ou in
      update_order cid id
        (add_order cid ou.price ou.price_aux_limit ou.price_trailing ou.amount cache.symbol user
          cache.side u.t cache.is_margin u.tif mts (gen_flags ou.hidden ou.post_only) c).1

module _ {F D : Type 0} ⦃fl : Floats F⦄ ⦃dc : Decimals F D⦄ where
  unfoldable pub read_update :
      TimeLayout → FieldMap D → (idi : ℤ) → CachedOrder F → Result (Update F)
  unfolding get_leverage
  read_update layout msg idi cache = do
    qty ← msg.get_decimal Tag.order_qty
    prices ← get_prices_from_ord_type msg
    (tif, tifmts) ← get_time_in_force_from_fix layout msg
    lev ← get_leverage msg
    typ ← order_new_type_from_fix msg
    let (hidden, post_only, oco) = get_flags_from_fix msg
    let ou : OrderUpdateRequest F = record {
      id = idi;
      gid = pos 0;
      amount = get_amount_from_qty_and_side cache.side qty;
      price = prices.px;
      price_aux_limit = prices.auxpx;
      price_trailing = prices.trailpx;
      hidden = hidden;
      post_only = post_only;
      time_in_force = tifmts;
      leverage = lev;
    }
    ok (record { ou = ou; t = prices.t; tif = tif; typ = typ })

  -- The handler from AddOrder on.
  unfoldable pub submit_update :
      Env F D
      → Symbology
      → SessionId
      → Update F
      → (id cid : String) (cidi mts : ℤ) → CachedOrder F
      → Peer F D
      → Outcome × Peer F D
  unfolding cache_update
  submit_update env symbology session u id cid cidi mts cache p =
      let ou = u.ou in
      let o = update_to_order ou cidi u.typ cache.symbol mts in
      let (order, c) = cache_update u id cid cache mts p.bfx_user_id p.cache in
      elim order [
        | none ↦ (panicked, record p { cache = c })
        | some updated_order ↦
            let p2 = note (updated ou) (record p { cache = c }) in
            elim (env.submit_update p.log ou) [
              | none ↦ (done, p2)
              | some e ↦
                  send_to_target env
                    (fix_execution_report_from_order session.begin_string (env.new_uuid p2.log) o
                      p.bfx_user_id ExecType.rejected fl.zero OrdStatus.rejected e symbology
                      session.target_comp_id o.flags ou.price_aux_limit ou.price_trailing)
                    p2
            ]
      ]

  -- The handler with the order found.
  unfoldable pub replace_found :
      Env F D
      → TimeLayout
      → Symbology
      → SessionId
      → FieldMap D
      → (id cid : String) (idi cidi : ℤ) → CachedOrder F
      → Peer F D
      → Outcome × Peer F D
  unfolding submit_update read_update
  replace_found env layout symbology session msg id cid idi cidi cache p =
      elim (read_update layout msg idi cache) [
        | err r ↦ (rejected r, p)
        | ok u ↦ elim (gen_mts_tif layout u.ou.time_in_force) [
          | none ↦ (panicked, p)
          | some mts ↦ submit_update env symbology session u id cid cidi mts cache p
        ]
      ]

  -- The handler after the two ClOrdIDs, for a session that has a peer.
  unfoldable pub replace_order :
      Env F D
      → TimeLayout
      → Symbology
      → SessionId
      → FieldMap D
      → (ocid cid : String) → Peer F D
      → Outcome × Peer F D
  unfolding find_replaced replace_found
  replace_order env layout symbology session msg ocid cid p =
      elim (find_replaced msg ocid cid p.cache) [
        | unreadable r ↦ (rejected r, p)
        | not_found id ↦
            send_to_target env
              (fix_order_cancel_reject session.begin_string p.bfx_user_id id ocid cid
                order_not_found_text true)
              p
        | found_order id idi cidi cache ↦
            replace_found env layout symbology session msg id cid idi cidi cache p
      ]

  unfoldable pub order_cancel_replace_for :
      Env F D → TimeLayout → Symbology → SessionId → FieldMap D → Peer F D → Outcome × Peer F D
  unfolding replace_order
  order_cancel_replace_for env layout symbology session msg p =
      elim (msg.get_string Tag.orig_cl_ord_id) [
        | err r ↦ (rejected r, p)
        | ok ocid ↦ elim (msg.get_string Tag.cl_ord_id) [
          | err r ↦ (rejected r, p)
          | ok cid ↦ replace_order env layout symbology session msg ocid cid p
        ]
      ]
