-- ===== src/Outbound/Evolves.antt =====
-- What the handlers of service/websocket/fix_msg.go do to the cache of a session.
pub mod Orders
pub mod Unchanged
use mathlib.Core.Path.{subst}
use bfxfixgw.Base.{
  ℕ, suc, String, ◌≡◌, refl, sym, Bool-cases, Option, none, some, Option-cases, inl, inr, List, [],
  ◌∷◌, arith, ◌==◌,
}
use bfxfixgw.Base.Floats.{Floats, Decimals}
use bfxfixgw.Base.Maps.{Order as Visits, IsOrder}
use bfxfixgw.Base.Text.Decimal.{format_int}
use bfxfixgw.Convert.Reports.{Order, TradeExecutionUpdate}
use bfxfixgw.Convert.MarketData.{Trade, BookUpdate}
use bfxfixgw.Fix.{GenericFix, SessionId}
use bfxfixgw.Outbound.MarketData.{fix_trade_handler, fix_book_snapshot, fix_book_update}
use bfxfixgw.Outbound.{send_message}
use bfxfixgw.Outbound.Notifications.{
  Notification, NotifyInfo, order_cancel, order_new, other_info, fix_notification_handler,
  notify_cancel, notify_new, acknowledge,
}
use bfxfixgw.Outbound.Orders.{
  add_known_order, fix_order_update_handler, fix_order_cancel_handler, report_execution,
  fix_trade_execution_update_handler,
}
use bfxfixgw.Convert.Positions.{Wallet, Position}
use bfxfixgw.Outbound.Positions.{
  send_each, BalanceInfo, wallet_report, position_report, fix_wallet_snapshot_handler,
  fix_wallet_update_handler, fix_position_snapshot_handler, fix_position_update_handler,
  fix_balance_info_handler, fix_balance_update_handler,
}
use bfxfixgw.Outbound.Snapshots.{
  add_executions, report_snapshot_order, finish_snapshot_order, fix_order_snapshot_handler,
  trades_or_none,
}
use bfxfixgw.Peer.Cache.{
  Cache, CachedCancel, update_order, add_execution, lookup_by_order_id, lookup_md_req_id,
}
use bfxfixgw.Peer.Cache.Evolves.{Evolves, unchanged, order_added, order_updated, execution_added}
use bfxfixgw.Peer.Order.{CachedOrder}
use bfxfixgw.Symbol.{Symbology}
use bfxfixgw.World.{Env, Peer, Answer-cases}

module _ {F D : Type 0} where
  pub cache-send_message :
      (env : Env F D) (m : Option (GenericFix D)) (p : Peer F D)
      → (send_message env m p).1.cache ≡ p.cache
  unfolding send_message
  cache-send_message env none p = refl
  cache-send_message env (some m) p = refl

  pub cache-send_each :
      {A : Type 0} (env : Env F D) (report : A → Peer F D → GenericFix D) (l : List A)
      (p : Peer F D)
      → (send_each env report l p).1.cache ≡ p.cache
  unfolding send_each send_message
  cache-send_each env report [] p = refl
  cache-send_each env report (a ∷ l) p = elim (Option-cases (env.send p.log (report a p))) [
    | inl fine ↦ rw (fine, send_each) (cache-send_each env report l _)
    | inr (e, error) ↦ rw (error, send_each) refl
  ]

module _ {F D : Type 0} ⦃fl : Floats F⦄ where
  -- A cache before and the peer after.
  pub Evolves-send_message :
      (env : Env F D) (m : Option (GenericFix D)) (c : Cache F) (p : Peer F D)
      → Evolves c p.cache
      → Evolves c (send_message env m p).1.cache
  Evolves-send_message env m c p v = subst (Evolves c) (sym (cache-send_message env m p)) v

module _ {F : Type 0} ⦃fl : Floats F⦄ where
  pub Evolves-add_known_order :
      (o : Order F) (a : F) (user : String) (c c' : Cache F)
      → Evolves c c'
      → Evolves c (add_known_order o a user c')
  unfolding add_known_order
  Evolves-add_known_order o a user c c' v = order_added _ _ _ _ _ _ _ _ _ _ _ _ _ v

  pub Evolves-acknowledge :
      (o : Order F) (user : String) (c : Cache F) → Evolves c (acknowledge o user c)
  unfolding acknowledge
  Evolves-acknowledge o user c =
      let v : Evolves c (update_order (format_int o.cid) (format_int o.id) c).1 =
        order_updated (format_int o.cid) (format_int o.id) unchanged in
      elim (Option-cases (update_order (format_int o.cid) (format_int o.id) c).0) [
        | inl missing ↦
            rw (missing, acknowledge)
              (order_updated _ _ (Evolves-add_known_order o o.amount user c c unchanged))
        | inr (order, hit) ↦ rw (hit, acknowledge) v
      ]

  pub Evolves-add_executions :
      (ranges : ℕ → Visits (CachedOrder F)) (i : ℕ) (l : List (TradeExecutionUpdate F))
      (c c' : Cache F)
      → ((i : ℕ) → IsOrder (ranges i))
      → Evolves c c'
      → Evolves c (add_executions ranges i l c').1
  unfolding add_executions
  Evolves-add_executions ranges i [] c c' o v = v
  Evolves-add_executions ranges i (tu ∷ rest) c c' o v =
      let w =
        execution_added (ranges i) (format_int tu.order_id) (format_int tu.id) tu.exec_price
          tu.exec_amount (o i) v in
      elim (Option-cases
        (add_execution (ranges i) (format_int tu.order_id) (format_int tu.id) tu.exec_price
          tu.exec_amount c').0) [
            | inl missing ↦ rw (missing, add_executions) w
            | inr (s, hit) ↦
                rw (hit, add_executions) (Evolves-add_executions ranges (suc i) rest c _ o w)
          ]
