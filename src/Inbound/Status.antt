-- ===== src/Inbound/Status.antt =====
-- OnFIXOrderStatusRequest of service/fix/fix_msg.go.
pub mod Unidentified
use bfxfixgw.Base.{String, none, some}
use bfxfixgw.Base.Floats.{Floats, Decimals}
use bfxfixgw.Base.Maps.{Order as Visits}
use bfxfixgw.Base.Text.Decimal.{format_int, parse_int}
use bfxfixgw.Convert.OrderReports.{fix_execution_report_from_order}
use bfxfixgw.Convert.Reports.{Order}
use bfxfixgw.Convert.ToFix.{ord_status_to_fix, ord_type_to_fix, side_to_fix, time_in_force_to_fix}
use bfxfixgw.Fix.{FieldMap, SessionId, ok, err, message_reject}
use bfxfixgw.Fix.ExecType
use bfxfixgw.Fix.Tag
use bfxfixgw.Peer.Cache.{Cache, add_order, lookup_by_order_id}
use bfxfixgw.Peer.Order.{CachedOrder, filled_qty}
use bfxfixgw.Symbol.{Symbology}
use bfxfixgw.World.{Env, Peer, got, failed, Outcome, rejected, note, asked_order, send_to_target}

module _ {F : Type 0} ⦃fl : Floats F⦄ where
  -- The cached order with the id, or what is added to the cache for it: the new one has no order id.
  unfoldable pub cached_or_added :
      Visits (CachedOrder F) → Order F → (bfx_user_id : String) → Cache F → CachedOrder F × Cache F
  cached_or_added r o user c = elim (lookup_by_order_id r (format_int o.id) c) [
    | some cached ↦ (cached, c)
    | none ↦
        let (tif, exp) = time_in_force_to_fix o.type o.mts_tif in
        let (ot, is_margin) = ord_type_to_fix o.type in
        add_order (format_int o.cid) o.price o.price_aux_limit o.price_trailing o.amount o.symbol
          user (side_to_fix o.amount) ot is_margin tif o.mts_tif o.flags c
  ]

module _ {F D : Type 0} ⦃fl : Floats F⦄ ⦃dc : Decimals F D⦄ where
  -- The handler for a session that has a peer; `parse_error` is the text of the error of
  -- strconv.ParseInt.
  unfoldable pub order_status_for :
      Visits (CachedOrder F)
      → (parse_error : String → String) → Env F D
      → Symbology
      → SessionId
      → FieldMap D
      → Peer F D
      → Outcome × Peer F D
  unfolding cached_or_added
  order_status_for r parse_error env symbology session msg p = elim (msg.get_string Tag.order_id) [
    | err e ↦ (rejected e, p)
    | ok oid ↦ elim (parse_int oid) [
      | none ↦ (rejected (message_reject (parse_error oid)), p)
      | some oidi ↦
          let p1 = note (asked_order oidi) p in
          elim (env.order_by_id p.log oidi) [
            | failed e ↦ (rejected (message_reject e), p1)
            | got o ↦
                let (cached, c) = cached_or_added r o p.bfx_user_id p.cache in
                send_to_target env
                  (fix_execution_report_from_order session.begin_string (env.new_uuid p1.log) o
                    p.bfx_user_id ExecType.order_status (filled_qty cached)
                    (ord_status_to_fix o.status) "" symbology session.target_comp_id cached.flags
                    cached.stop cached.trail)
                  (record p1 { cache = c })
          ]
    ]
  ]
