-- ===== src/Inbound/Cancel.antt =====
-- OnFIXOrderCancelRequest of service/fix/fix_msg.go.
pub mod Asked
use bfxfixgw.Base.{ℕ, String, Bool, true, false, Option, none, some, List, [], ◌∷◌, if◌then◌else◌}
use bfxfixgw.Base.Floats.{Floats, Decimals}
use bfxfixgw.Base.Int.{ℤ, pos}
use bfxfixgw.Base.Text.Decimal.{parse_int}
use bfxfixgw.Base.Time.{Time}
use bfxfixgw.Convert.OrderReports.{fix_order_cancel_reject}
use bfxfixgw.Convert.Reports.{order_not_found_text}
use bfxfixgw.Fix.{FieldMap, SessionId, Result, Reject, ok, err, ◌>>=◌}
use bfxfixgw.Fix.Tag
use bfxfixgw.Peer.Cache.{Cache, lookup_by_cl_ord_id}
use bfxfixgw.Peer.Order.{CachedOrder}
use bfxfixgw.World.{
  Env, Peer, Outcome, done, rejected, note, OrderCancelRequest, canceled, send_to_target,
}

-- The fields that a cancel request has to have.
pub record CancelFields : Type 0 where
  pub ocid : String
  pub cid : String
  pub txn_time : Time

-- What a request asks to cancel: the message cannot be read, there can be no such order, or a
-- request for Bitfinex. `id` is the order id that a reject names.
pub data Target : Type 0 where
  unreadable_id : Reject → Target
  no_order : (id : String) → Target
  target : (id : String) → OrderCancelRequest → Target

abbrev pub order_id_of : {F : Type 0} → Option (CachedOrder F) → String
order_id_of none = ""
order_id_of (some o) = o.order_id

module _ {D : Type 0} where
  unfoldable pub read_cancel : FieldMap D → Result CancelFields
  read_cancel msg = do
    ocid ← msg.get_string Tag.orig_cl_ord_id
    cid ← msg.get_string Tag.cl_ord_id
    txn_time ← msg.get_time Tag.transact_time
    ok (record { ocid = ocid; cid = cid; txn_time = txn_time })

-- Cancel by the id of the server.
unfoldable pub target_by_order_id : Result String → Target
target_by_order_id (err r) = unreadable_id r
target_by_order_id (ok id) = elim (parse_int id) [
  | none ↦ no_order id
  | some idi ↦ target id (record { id = idi; cid = pos 0; cid_date = "" })
]

module _ {F : Type 0} where
  -- Cancel by the id of the client and the date of the request, in the layout 2006-01-02.
  unfoldable pub target_by_cl_ord_id :
      (format_date : Time → String) → CancelFields → Cache F → Target
  target_by_cl_ord_id format_date q c = elim (parse_int q.ocid) [
    | none ↦ no_order ""
    | some ocidi ↦
        target (order_id_of (lookup_by_cl_ord_id q.ocid c))
          (record { id = pos 0; cid = ocidi; cid_date = format_date q.txn_time })
  ]

module _ {F D : Type 0} where
  unfoldable pub target_of :
      (format_date : Time → String) → FieldMap D → CancelFields → Cache F → Target
  unfolding target_by_order_id target_by_cl_ord_id
  target_of format_date msg q c =
      if msg.has Tag.order_id
      then target_by_order_id (msg.get_string Tag.order_id)
      else target_by_cl_ord_id format_date q c

  -- The cancel reject for an error.
  unfoldable pub send_cancel_reject :
      Env F D → SessionId → CancelFields → (id message : String) → Peer F D → Outcome × Peer F D
  unfolding send_to_target
  send_cancel_reject env session q id message p =
      send_to_target env
        (fix_order_cancel_reject session.begin_string p.bfx_user_id id q.ocid q.cid message false) p

  unfoldable pub cancel_target :
      Env F D → SessionId → CancelFields → Target → Peer F D → Outcome × Peer F D
  unfolding send_cancel_reject
  cancel_target env session q (unreadable_id r) p = (rejected r, p)
  cancel_target env session q (no_order id) p =
      send_cancel_reject env session q id order_not_found_text p
  cancel_target env session q (target id oc) p =
      let p' = note (canceled oc) p in
      elim (env.send_cancel p.log oc) [
        | none ↦ (done, p')
        | some e ↦ send_cancel_reject env session q id e p'
      ]

  -- The handler for a session that has a peer
  unfoldable pub order_cancel_for :
      (format_date : Time → String)
      → Env F D
      → SessionId
      → FieldMap D
      → Peer F D
      → Outcome × Peer F D
  unfolding read_cancel target_of cancel_target
  order_cancel_for format_date env session msg p = elim (read_cancel msg) [
    | err r ↦ (rejected r, p)
    | ok q ↦ cancel_target env session q (target_of format_date msg q p.cache) p
  ]
