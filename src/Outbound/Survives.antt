-- ===== src/Outbound/Survives.antt =====
-- When a handler of service/websocket/fix_msg.go builds what it sends, in a session of a version that
-- the gateway speaks: a market data message always, and a report if its numbers are finite.
pub mod Handlers
use bfxfixgw.Base.{
  ℕ, suc, String, ◌≡◌, ◌≢◌, refl, sym, true, false, Bool-cases, Option, none, some, Option-cases,
  inl, inr, ◌⊎◌, List, [], ◌∷◌, arith, ◌==◌, eq_iff, eq_refl, ◌∙◌, ap, ◌||◌,
}
use bfxfixgw.Base.Floats.{Floats, Decimals}
use bfxfixgw.Base.Int.{ℤ}
use bfxfixgw.Base.Maps.{Order as Visits, lookup, assign, lookup-assign, find_first}
use bfxfixgw.Base.Text.Decimal.{format_int}
use bfxfixgw.Convert.Fields.{IsVersion, is_fix42, is_fix44, is_fixt11, execution_report-Says}
use bfxfixgw.Convert.Finite.{AreFinite}
use bfxfixgw.Convert.MarketData.{
  Trade, BookUpdate, full_refresh, full_refresh_from_book_snapshot, incremental_refresh,
  incremental_refresh_from_trade, incremental_refresh_from_book_update,
}
use bfxfixgw.Convert.OrderReports.{
  fix_execution_report_from_order, fix_execution_report_from_trade, fix_order_cancel_reject,
  order_report_args, trade_report_args,
}
use bfxfixgw.Convert.Positions.{Wallet, Position}
use bfxfixgw.Convert.Reports.{
  Order, TradeExecutionUpdate, new_message, ReportArgs, fix_execution_report,
}
use bfxfixgw.Convert.ToFix.{ord_status_to_fix}
use bfxfixgw.Fix.{
  GenericFix, SessionId, BeginString, Kind, Value, market_data_incremental, market_data_snapshot,
}
use bfxfixgw.Fix.OrdStatus
use bfxfixgw.Inbound.MarketData.{flat}
use bfxfixgw.Outbound.{send_message, of_error, Handled, handled, failed_with, crashed}
use bfxfixgw.Outbound.MarketData.{fix_trade_handler, fix_book_snapshot, fix_book_update}
use bfxfixgw.Outbound.Notifications.{
  Notification, NotifyInfo, order_cancel, order_new, other_info, fix_notification_handler,
  notify_cancel, notify_new, pending_cancel_args,
}
use bfxfixgw.Outbound.Orders.{
  add_known_order, fix_order_update_handler, fix_order_cancel_handler, report_execution,
  fix_trade_execution_update_handler,
}
use bfxfixgw.Outbound.Positions.{
  send_each, BalanceInfo, fix_wallet_snapshot_handler, fix_position_snapshot_handler,
}
use bfxfixgw.Outbound.Snapshots.{
  add_executions, report_snapshot_order, finish_snapshot_order, fix_order_snapshot_handler,
  trades_or_none,
}
use bfxfixgw.Peer.Cache.{
  Cache, CachedCancel, add_order, update_order, add_execution, has_order_id, lookup_by_order_id,
  lookup_by_cl_ord_id, lookup_md_req_id,
}
use bfxfixgw.Peer.Order.{CachedOrder}
use bfxfixgw.Symbol.{Symbology}
use bfxfixgw.World.{Env, Peer, Event, sent, got, failed, Answer-cases}

-- The handler has not panicked.
abbrev pub Survives : Handled → Type 0
Survives handled = Unit
Survives (failed_with e) = Unit
Survives crashed = ⊥

abbrev pub IsBuilt : {D : Type 0} → Option (GenericFix D) → Type 0
IsBuilt {D} x = (m : GenericFix D) × (x ≡ some m)

-- The message is built if `P`, and the function that builds it panics otherwise.
abbrev pub Builds : {D : Type 0} → (P : Type 0) → Option (GenericFix D) → Type 0
Builds {D} P x = (P × IsBuilt x) ⊎ (¬ P × (x ≡ none))

pub of_error-Survives : (e : Option String) → Survives (of_error e)
of_error-Survives none = tt
of_error-Survives (some e) = tt

module _ {D : Type 0} where
  pub incremental-IsBuilt :
      {v : BeginString} (id : String) (entry : List (ℕ × Value D))
      → IsVersion v
      → IsBuilt (incremental_refresh v id entry)
  unfolding incremental_refresh new_message
  incremental-IsBuilt id entry is_fix42 = (_, refl)
  incremental-IsBuilt id entry is_fix44 = (_, refl)
  incremental-IsBuilt id entry is_fixt11 = (_, refl)

module _ {F D : Type 0} where
  pub send-Survives :
      (env : Env F D) (x : Option (GenericFix D)) (p : Peer F D)
      → IsBuilt x
      → Survives (send_message env x p).0
  unfolding send_message
  send-Survives env x p (m, e) = rw (e, send_message) (of_error-Survives (env.send p.log m))

  -- One message is sent if `P`, and the handler panics otherwise, with nothing sent.
  abbrev pub Tells : (P : Type 0) → (result : Handled) → (log log' : List (Event F D)) → Type 0
  Tells P result log log' =
      (P × (m : GenericFix D) × (log' ≡ sent m ∷ log)) ⊎ (¬ P × (result ≡ crashed) × (log' ≡ log))

  pub send-Tells :
      {P : Type 0} (env : Env F D) (x : Option (GenericFix D)) (p : Peer F D)
      → Builds P x
      → Tells P (send_message env x p).0 p.log (send_message env x p).1.log
  unfolding send_message
  send-Tells env x p (inl (finite, b)) = inl (finite, b.0, rw (b.1, send_message) refl)
  send-Tells env x p (inr (not_finite, e)) =
      inr (not_finite, rw (e, send_message) refl, rw (e, send_message) refl)

module _ {F D : Type 0} ⦃fl : Floats F⦄ ⦃dc : Decimals F D⦄ where
  pub order_report-Builds :
      {v : BeginString} (id : String) (o : Order F) (account exec_type : String) (cum : F)
      (status message : String) (symbology : Symbology) (counterparty : String) (flags : ℕ)
      (stop peg : F)
      → IsVersion v
      → Builds {D = D}
          (AreFinite (order_report_args o account exec_type cum status message flags stop peg))
          (fix_execution_report_from_order v id o account exec_type cum status message symbology
            counterparty flags stop peg)
  unfolding fix_execution_report_from_order
  order_report-Builds id o account exec_type cum status message symbology counterparty flags stop
        peg v =
      elim (execution_report-Says ⦃dc = dc⦄ id
        (order_report_args o account exec_type cum status message flags stop peg) symbology
        counterparty v) [
          | inl (finite, m, e, says) ↦
              inl (finite, rw (e, fix_execution_report_from_order) (_, refl))
          | inr (not_finite, e) ↦ inr (not_finite, rw (e, fix_execution_report_from_order) refl)
        ]

  pub trade_report-Builds :
      {v : BeginString} (id : String) (t : TradeExecutionUpdate F) (account cl_ord_id : String)
      (orig total px stop trail avg : F) (symbology : Symbology) (counterparty : String) (exp : ℤ)
      (flags : ℕ)
      → IsVersion v
      → Builds {D = D}
          (AreFinite (trade_report_args t account cl_ord_id orig total px stop trail avg exp flags))
          (fix_execution_report_from_trade v id t account cl_ord_id orig total px stop trail avg
            symbology counterparty exp flags)
  unfolding fix_execution_report_from_trade
  trade_report-Builds id t account cl_ord_id orig total px stop trail avg symbology counterparty exp
        flags v =
      elim (execution_report-Says ⦃dc = dc⦄ id
        (trade_report_args t account cl_ord_id orig total px stop trail avg exp flags) symbology
        counterparty v) [
          | inl (finite, m, e, says) ↦
              inl (finite, rw (e, fix_execution_report_from_trade) (_, refl))
          | inr (not_finite, e) ↦ inr (not_finite, rw (e, fix_execution_report_from_trade) refl)
        ]

  pub snapshot-IsBuilt :
      {v : BeginString} (id : String) (u : BookUpdate F) (l : List (BookUpdate F))
      (symbology : Symbology) (counterparty : String)
      → IsVersion v
      → IsBuilt {D = D} (flat (full_refresh_from_book_snapshot v id (u ∷ l) symbology counterparty))
  unfolding full_refresh_from_book_snapshot full_refresh new_message
  snapshot-IsBuilt id u l symbology counterparty is_fix42 = (_, refl)
  snapshot-IsBuilt id u l symbology counterparty is_fix44 = (_, refl)
  snapshot-IsBuilt id u l symbology counterparty is_fixt11 = (_, refl)

module _ {F : Type 0} ⦃fl : Floats F⦄ where
  -- The cache has an order under the ClOrdID.
  abbrev pub IsFiled : String → Cache F → Type 0
  IsFiled k c = (o : CachedOrder F) × (lookup k c.orders ≡ some o)

  assigned-IsFiled :
      (k : String) (v : CachedOrder F) (m : List (String × CachedOrder F))
      → (o : CachedOrder F) × (lookup k (assign k v m) ≡ some o)
  assigned-IsFiled k v m = (v, rw (lookup-assign, eq_refl) refl)

  pub add_known_order-IsFiled :
      (o : Order F) (a : F) (user : String) (c : Cache F)
      → IsFiled (format_int o.cid) (add_known_order o a user c)
  unfolding add_known_order add_order
  add_known_order-IsFiled o a user c = assigned-IsFiled (format_int o.cid) _ c.orders
