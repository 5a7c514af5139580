-- ===== src/Outbound/Notifications/Acknowledged.antt =====
-- What the notification of a new order does to the cache of its session.
use bfxfixgw.Base.{String, ◌≡◌, ◌≢◌, true, false, none, some, ◌==◌, if◌then◌else◌}
use bfxfixgw.Base.Floats.{Floats, Decimals}
use bfxfixgw.Base.Text.Decimal.{format_int}
use bfxfixgw.Convert.Finite.{AreFinite}
use bfxfixgw.Convert.OrderReports.{order_report_args}
use bfxfixgw.Convert.Reports.{Order, ReportArgs}
use bfxfixgw.Fix.ExecType
use bfxfixgw.Fix.OrdStatus
use bfxfixgw.Outbound.{Handled}
use bfxfixgw.Outbound.Notifications.{peg_and_stop}
use bfxfixgw.Outbound.Survives.{Tells}
use bfxfixgw.Peer.Cache.{Cache, lookup_by_cl_ord_id}
use bfxfixgw.Peer.Order.{CachedOrder}
use bfxfixgw.World.{Peer}

module _ {F : Type 0} where
  -- The order is cached under its ClOrdID with its id, and every other ClOrdID has what it had.
  pub record IsAcknowledged (o : Order F) (c c' : Cache F) : Type 0 where
    pub cached : CachedOrder F
    pub found : lookup_by_cl_ord_id (format_int o.cid) c' ≡ some cached
    pub id : cached.order_id ≡ format_int o.id
    pub others :
        (k : String) → k ≢ format_int o.cid → lookup_by_cl_ord_id k c' ≡ lookup_by_cl_ord_id k c

module _ {F : Type 0} ⦃fl : Floats F⦄ where
  -- The arguments of the report on a new order, once the cache is as it will be.
  abbrev pub new_args : Order F → (status text : String) → (user : String) → Cache F → ReportArgs F
  new_args o status text user c =
      let refused = status == "ERROR" in
      order_report_args o user (if refused then ExecType.rejected else ExecType.new) fl.zero
        (if refused then OrdStatus.rejected else OrdStatus.new) (if refused then text else "")
        (elim (lookup_by_cl_ord_id (format_int o.cid) c) [
          | none ↦ o.flags
          | some orig ↦ orig.flags
        ])
        (peg_and_stop o c).1 (peg_and_stop o c).0

module _ {F D : Type 0} ⦃fl : Floats F⦄ ⦃dc : Decimals F D⦄ where
  -- How the notification of a new order leaves the session: `result` and `p'`.
  abbrev pub Acknowledges :
      Order F → (status text : String) → Peer F D → (result : Handled) → (p' : Peer F D) → Type 0
  Acknowledges o status text p result p' =
      ((status == "ERROR") ≡ true → p'.cache ≡ p.cache)
      × ((status == "ERROR") ≡ false → IsAcknowledged o p.cache p'.cache)
      × Tells (AreFinite (new_args o status text p.bfx_user_id p'.cache)) result p.log p'.log
