-- ===== src/Outbound/Evolves/Unchanged.antt =====
-- The handlers of service/websocket/fix_msg.go that leave the cache of a session as it is.
use bfxfixgw.Base.{◌≡◌, refl, Option-cases, inl, inr, List, [], ◌∷◌, arith}
use bfxfixgw.Base.Floats.{Floats, Decimals}
use bfxfixgw.Base.Maps.{Order as Visits}
use bfxfixgw.Convert.Reports.{Order}
use bfxfixgw.Convert.MarketData.{Trade, BookUpdate}
use bfxfixgw.Fix.{SessionId}
use bfxfixgw.Outbound.MarketData.{fix_trade_handler, fix_book_snapshot, fix_book_update}
use bfxfixgw.Outbound.{send_message}
use bfxfixgw.Outbound.Notifications.{}
use bfxfixgw.Outbound.Orders.{fix_order_update_handler, fix_order_cancel_handler}
use bfxfixgw.Convert.Positions.{Wallet, Position}
use bfxfixgw.Outbound.Positions.{
  BalanceInfo, wallet_report, position_report, fix_wallet_snapshot_handler,
  fix_wallet_update_handler, fix_position_snapshot_handler, fix_position_update_handler,
  fix_balance_info_handler, fix_balance_update_handler,
}
use bfxfixgw.Outbound.Snapshots.{}
use bfxfixgw.Peer.Cache.{lookup_md_req_id}
use bfxfixgw.Peer.Order.{CachedOrder}
use bfxfixgw.Symbol.{Symbology}
use bfxfixgw.World.{Env, Peer}
use bfxfixgw.Outbound.Evolves.{cache-send_message, cache-send_each}

module _ {F D : Type 0} ⦃fl : Floats F⦄ ⦃dc : Decimals F D⦄ (env : Env F D) (symbology : Symbology)
    (session : SessionId) where
  pub cache-fix_order_update_handler :
      (o : Order F) (p : Peer F D)
      → (fix_order_update_handler env symbology session o p).1.cache ≡ p.cache
  unfolding fix_order_update_handler
  cache-fix_order_update_handler o p = cache-send_message env _ p

  pub cache-fix_order_cancel_handler :
      (r : Visits (CachedOrder F)) (o : Order F) (p : Peer F D)
      → (fix_order_cancel_handler env symbology session r o p).1.cache ≡ p.cache
  unfolding fix_order_cancel_handler send_message
  cache-fix_order_cancel_handler r o p = ground arith

  pub cache-fix_trade_handler :
      (t : Trade F) (p : Peer F D) → (fix_trade_handler env symbology session t p).1.cache ≡ p.cache
  unfolding fix_trade_handler send_message
  cache-fix_trade_handler t p = ground arith

  pub cache-fix_book_snapshot :
      (l : List (BookUpdate F)) (p : Peer F D)
      → (fix_book_snapshot env symbology session l p).1.cache ≡ p.cache
  unfolding fix_book_snapshot send_message
  cache-fix_book_snapshot [] p = refl
  cache-fix_book_snapshot (u ∷ l) p = elim (Option-cases (lookup_md_req_id u.symbol p.cache)) [
    | inl missing ↦ rw (missing, fix_book_snapshot) refl
    | inr (id, hit) ↦ rw (hit, fix_book_snapshot) (cache-send_message env _ p)
  ]

  pub cache-fix_book_update :
      (u : BookUpdate F) (p : Peer F D)
      → (fix_book_update env symbology session u p).1.cache ≡ p.cache
  unfolding fix_book_update send_message
  cache-fix_book_update u p = ground arith

  pub cache-fix_wallet_snapshot_handler :
      (l : List (Wallet F)) (p : Peer F D)
      → (fix_wallet_snapshot_handler env symbology session l p).1.cache ≡ p.cache
  unfolding fix_wallet_snapshot_handler
  cache-fix_wallet_snapshot_handler l p =
      cache-send_each env (wallet_report env symbology session) l p

  pub cache-fix_wallet_update_handler :
      (w : Wallet F) (p : Peer F D)
      → (fix_wallet_update_handler env symbology session w p).1.cache ≡ p.cache
  unfolding fix_wallet_update_handler
  cache-fix_wallet_update_handler w p = cache-fix_wallet_snapshot_handler (w ∷ []) p

  pub cache-fix_position_snapshot_handler :
      (l : List (Position F)) (p : Peer F D)
      → (fix_position_snapshot_handler env symbology session l p).1.cache ≡ p.cache
  unfolding fix_position_snapshot_handler
  cache-fix_position_snapshot_handler l p =
      cache-send_each env (position_report env symbology session) l p

  pub cache-fix_position_update_handler :
      (x : Position F) (p : Peer F D)
      → (fix_position_update_handler env symbology session x p).1.cache ≡ p.cache
  unfolding fix_position_update_handler
  cache-fix_position_update_handler x p = cache-fix_position_snapshot_handler (x ∷ []) p

  pub cache-fix_balance_info_handler :
      (b : BalanceInfo F) (p : Peer F D)
      → (fix_balance_info_handler env symbology session b p).1.cache ≡ p.cache
  unfolding fix_balance_info_handler
  cache-fix_balance_info_handler b p = cache-fix_wallet_update_handler _ p

  pub cache-fix_balance_update_handler :
      (b : BalanceInfo F) (p : Peer F D)
      → (fix_balance_update_handler env symbology session b p).1.cache ≡ p.cache
  unfolding fix_balance_update_handler
  cache-fix_balance_update_handler b p = cache-fix_balance_info_handler b p
