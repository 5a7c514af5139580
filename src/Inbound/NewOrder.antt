-- ===== src/Inbound/NewOrder.antt =====
-- OnFIXNewOrderSingle of service/fix/fix_msg.go.
pub mod Submits
use bfxfixgw.Base.{ℕ, String, Bool, true, false, Option, none, some, List, [], ◌∷◌, if◌then◌else◌}
use bfxfixgw.Base.Floats.{Floats, Decimals}
use bfxfixgw.Base.Int.{ℤ, pos}
use bfxfixgw.Base.Text.{contains}
use bfxfixgw.Base.Time.{TimeLayout}
use bfxfixgw.Convert.FromFix.{
  OrderNewRequest, order_new_from_fix_new_order_single, get_time_in_force_from_fix,
}
use bfxfixgw.Convert.OrderReports.{fix_execution_report_from_order}
use bfxfixgw.Convert.Reports.{Order}
use bfxfixgw.Fix.{FieldMap, SessionId, Result, ok, err, message_reject, ◌>>=◌}
use bfxfixgw.Fix.ExecType
use bfxfixgw.Fix.OrdStatus
use bfxfixgw.Fix.Tag
use bfxfixgw.Inbound.Orders.{gen_mts_tif, request_to_order}
use bfxfixgw.Peer.Cache.{Cache, add_order}
use bfxfixgw.Symbol.{Symbology}
use bfxfixgw.World.{Env, Peer, Outcome, done, rejected, panicked, note, submitted, send_to_target}

abbrev pub no_peer_text : String
no_peer_text = "could not find established peer for session ID"

-- What the handler has read from the message before it changes anything.
pub record NewOrder (F : Type 0) : Type 0 where
  pub bo : OrderNewRequest F
  pub ordtype : String
  pub clordid : String
  pub side : String
  pub tif : String

module _ {D : Type 0} where
  -- if lev := 0; msg.Has(TagLeverage) { lev, err = msg.GetInt(TagLeverage) … }
  unfoldable pub get_leverage : FieldMap D → Result ℤ
  get_leverage msg = if msg.has Tag.leverage then msg.get_int Tag.leverage else ok (pos 0)

module _ {F : Type 0} ⦃fl : Floats F⦄ where
  -- p.AddOrder(…) with what has been read
  unfoldable pub cache_new_order : NewOrder F → Order F → (bfx_user_id : String) → Cache F → Cache F
  cache_new_order n o user c =
      let bo = n.bo in
      (add_order n.clordid bo.price bo.price_aux_limit bo.price_trailing bo.amount bo.symbol user
        n.side n.ordtype (contains bo.type "MARGIN") n.tif o.mts_tif o.flags c).1

module _ {F D : Type 0} ⦃fl : Floats F⦄ ⦃dc : Decimals F D⦄ where
  unfoldable pub read_new_order :
      TimeLayout → Symbology → SessionId → FieldMap D → Result (NewOrder F)
  unfolding get_leverage
  read_new_order layout symbology session msg = do
    bo ← order_new_from_fix_new_order_single msg symbology session.target_comp_id
    lev ← get_leverage msg
    ordtype ← msg.get_string Tag.ord_type
    clordid ← msg.get_string Tag.cl_ord_id
    side ← msg.get_string Tag.side
    (tif, tifmts) ← get_time_in_force_from_fix layout msg
    let bo' : OrderNewRequest F = record bo { leverage = lev; time_in_force = tifmts }
    ok (record { bo = bo'; ordtype = ordtype; clordid = clordid; side = side; tif = tif })

  -- The handler from AddOrder on.
  unfoldable pub submit_new_order :
      Env F D → Symbology → SessionId → NewOrder F → Order F → Peer F D → Outcome × Peer F D
  unfolding cache_new_order
  submit_new_order env symbology session n o p =
      let bo = n.bo in
      let p1 : Peer F D = record p { cache = cache_new_order n o p.bfx_user_id p.cache } in
      let p2 = note (submitted bo) p1 in
      elim (env.submit_order p.log bo) [
        | none ↦ (done, p2)
        | some e ↦
            send_to_target env
              (fix_execution_report_from_order session.begin_string (env.new_uuid p2.log) o
                p.bfx_user_id ExecType.rejected fl.zero OrdStatus.rejected e symbology
                session.target_comp_id o.flags bo.price_aux_limit bo.price_trailing)
              p2
      ]

  -- The handler for a session that has a peer.
  unfoldable pub new_order_for :
      Env F D → TimeLayout → Symbology → SessionId → FieldMap D → Peer F D → Outcome × Peer F D
  unfolding submit_new_order read_new_order
  new_order_for env layout symbology session msg p =
      elim (read_new_order layout symbology session msg) [
        | err r ↦ (rejected r, p)
        | ok n ↦ elim (gen_mts_tif layout n.bo.time_in_force) [
          | none ↦ (panicked, p)
          | some mts ↦ submit_new_order env symbology session n (request_to_order n.bo mts) p
        ]
      ]
