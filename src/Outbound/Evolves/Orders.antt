-- ===== src/Outbound/Evolves/Orders.antt =====
-- The handlers of service/websocket/fix_msg.go that add to the cache of a session.
use mathlib.Core.Path.{subst}
use bfxfixgw.Base.{
  ℕ, String, ◌≡◌, refl, sym, Bool-cases, Option, none, some, Option-cases, inl, inr, List, [], ◌∷◌,
  arith, ◌==◌,
}
use bfxfixgw.Base.Floats.{Floats, Decimals}
use bfxfixgw.Base.Maps.{Order as Visits, IsOrder}
use bfxfixgw.Base.Text.Decimal.{format_int}
use bfxfixgw.Convert.Reports.{Order, TradeExecutionUpdate}
use bfxfixgw.Fix.{SessionId}
use bfxfixgw.Outbound.{send_message}
use bfxfixgw.Outbound.Notifications.{
  Notification, NotifyInfo, order_cancel, order_new, other_info, fix_notification_handler,
  notify_cancel, notify_new,
}
use bfxfixgw.Outbound.Orders.{report_execution, fix_trade_execution_update_handler}
use bfxfixgw.Outbound.Positions.{}
use bfxfixgw.Outbound.Snapshots.{
  add_executions, report_snapshot_order, finish_snapshot_order, fix_order_snapshot_handler,
  trades_or_none,
}
use bfxfixgw.Peer.Cache.{Cache, CachedCancel, update_order, add_execution, lookup_by_order_id}
use bfxfixgw.Peer.Cache.Evolves.{Evolves, unchanged, order_updated, execution_added}
use bfxfixgw.Peer.Order.{CachedOrder}
use bfxfixgw.Symbol.{Symbology}
use bfxfixgw.World.{Env, Peer, Answer-cases}
use bfxfixgw.Outbound.Evolves.{
  Evolves-send_message, Evolves-add_known_order, Evolves-acknowledge, Evolves-add_executions,
}

module _ {F D : Type 0} ⦃fl : Floats F⦄ ⦃dc : Decimals F D⦄ (env : Env F D) (symbology : Symbology)
    (session : SessionId) where
  Evolves-report_execution :
      (r : Visits (CachedOrder F)) (t : TradeExecutionUpdate F) (cached : Option (CachedOrder F))
      (c : Cache F) (p : Peer F D)
      → IsOrder r
      → Evolves c p.cache
      → Evolves c (report_execution env symbology session r t cached p).1.cache
  unfolding report_execution
  Evolves-report_execution r t none c p o v =
      let w =
        execution_added r (format_int t.order_id) (format_int t.id) t.exec_price t.exec_amount o
          v in
      elim (Option-cases
        (add_execution r (format_int t.order_id) (format_int t.id) t.exec_price t.exec_amount
          p.cache).0) [
            | inl missing ↦ rw (missing, report_execution) w
            | inr (stats, hit) ↦ rw (hit, report_execution) w
          ]
  Evolves-report_execution r t (some order) c p o v =
      let w =
        execution_added r (format_int t.order_id) (format_int t.id) t.exec_price t.exec_amount o
          v in
      elim (Option-cases
        (add_execution r (format_int t.order_id) (format_int t.id) t.exec_price t.exec_amount
          p.cache).0) [
            | inl missing ↦ rw (missing, report_execution) w
            | inr (stats, hit) ↦ rw (hit, report_execution) (Evolves-send_message env _ c _ w)
          ]

  pub Evolves-fix_trade_execution_update_handler :
      (r r' : Visits (CachedOrder F)) (t : TradeExecutionUpdate F) (p : Peer F D)
      → IsOrder r'
      → Evolves p.cache (fix_trade_execution_update_handler env symbology session r r' t p).1.cache
  unfolding fix_trade_execution_update_handler
  Evolves-fix_trade_execution_update_handler r r' t p o =
      elim (Option-cases (lookup_by_order_id r (format_int t.order_id) p.cache)) [
        | inr (cached, hit) ↦
            rw (hit, fix_trade_execution_update_handler)
              (Evolves-report_execution r' t (some cached) p.cache p o unchanged)
        | inl missing ↦ elim (Answer-cases (env.order_by_id p.log t.order_id)) [
          | inl (e, fails) ↦ rw (missing, fails, fix_trade_execution_update_handler) unchanged
          | inr (os, answers) ↦
              rw (missing, answers, fix_trade_execution_update_handler)
                (Evolves-report_execution r' t _ p.cache _ o
                  (order_updated _ _ (Evolves-add_known_order os _ _ p.cache p.cache unchanged)))
        ]
      ]

  cache-notify_cancel :
      (r : Visits CachedCancel) (o : Order F) (status text : String) (p : Peer F D)
      → (notify_cancel env symbology session r o status text p).1.cache ≡ p.cache
  unfolding notify_cancel send_message
  cache-notify_cancel r o status text p = ground arith

  Evolves-notify_new :
      (o : Order F) (status text : String) (p : Peer F D)
      → Evolves p.cache (notify_new env symbology session o status text p).1.cache
  unfolding notify_new
  Evolves-notify_new o status text p = elim (Bool-cases (status == "ERROR")) [
    | inl bad ↦ rw (bad, notify_new) (Evolves-send_message env _ p.cache _ unchanged)
    | inr fine ↦
        rw (fine, notify_new)
          (Evolves-send_message env _ p.cache _ (Evolves-acknowledge o _ p.cache))
  ]

  pub Evolves-fix_notification_handler :
      (r : Visits CachedCancel) (d : Notification F) (p : Peer F D)
      → Evolves p.cache (fix_notification_handler env symbology session r d p).1.cache
  unfolding fix_notification_handler
  Evolves-fix_notification_handler r d p = go d.notify_info refl
    where
      go :
          (i : NotifyInfo F)
          → d.notify_info ≡ i
          → Evolves p.cache (fix_notification_handler env symbology session r d p).1.cache
      go (order_cancel o) e =
          rw e (subst (Evolves p.cache) (sym (cache-notify_cancel r o d.status d.text p)) unchanged)
      go (order_new o) e = rw e (Evolves-notify_new o d.status d.text p)
      go other_info e = rw e unchanged

  Evolves-report_snapshot_order :
      (o : Order F) (c : Cache F) (p : Peer F D)
      → Evolves c p.cache
      → Evolves c (report_snapshot_order env symbology session o p).1.cache
  unfolding report_snapshot_order
  Evolves-report_snapshot_order o c p v =
      let w = order_updated (format_int o.cid) (format_int o.id) v in
      elim (Option-cases (update_order (format_int o.cid) (format_int o.id) p.cache).0) [
        | inl missing ↦ rw (missing, report_snapshot_order) w
        | inr (cache, hit) ↦ rw (hit, report_snapshot_order) (Evolves-send_message env _ c _ w)
      ]

  Evolves-finish_snapshot_order :
      (ranges : ℕ → Visits (CachedOrder F)) (l : List (TradeExecutionUpdate F)) (o : Order F)
      (c : Cache F) (p : Peer F D)
      → ((i : ℕ) → IsOrder (ranges i))
      → Evolves c p.cache
      → Evolves c (finish_snapshot_order env symbology session ranges l o p).1.cache
  unfolding finish_snapshot_order
  Evolves-finish_snapshot_order ranges l o c p are v =
      let w = Evolves-add_executions ranges 0 l c p.cache are v in
      elim (Option-cases (add_executions ranges 0 l p.cache).0) [
        | inl fine ↦ rw (fine, finish_snapshot_order) (Evolves-report_snapshot_order o c _ w)
        | inr (e, error) ↦ rw (error, finish_snapshot_order) w
      ]

  pub Evolves-fix_order_snapshot_handler :
      (ranges : ℕ → Visits (CachedOrder F)) (l : List (Order F)) (c : Cache F) (p : Peer F D)
      → ((i : ℕ) → IsOrder (ranges i))
      → Evolves c p.cache
      → Evolves c (fix_order_snapshot_handler env symbology session ranges l p).1.cache
  unfolding fix_order_snapshot_handler
  Evolves-fix_order_snapshot_handler ranges [] c p are v = v
  Evolves-fix_order_snapshot_handler ranges (o ∷ rest) c p are v =
      let w = Evolves-add_known_order o o.amount p.bfx_user_id c p.cache v in
      elim (Answer-cases (env.order_trades p.log o.symbol o.id)) [
        | inl (e, fails) ↦
            rw (fails, fix_order_snapshot_handler)
              (Evolves-fix_order_snapshot_handler ranges rest c _ are w)
        | inr (trades, answers) ↦
            rw (answers, fix_order_snapshot_handler)
              (Evolves-finish_snapshot_order ranges (trades_or_none trades) o c _ are w)
      ]
