-- ===== src/Outbound/MarketData.antt =====
-- The handlers of trades and books in service/websocket/fix_msg.go.
pub mod Routing
use bfxfixgw.Base.{String, Option, none, some, List, [], ◌∷◌}
use bfxfixgw.Base.Floats.{Floats, Decimals}
use bfxfixgw.Convert.MarketData.{
  Trade, BookUpdate, full_refresh_from_trade_snapshot, full_refresh_from_book_snapshot,
  incremental_refresh_from_trade, incremental_refresh_from_book_update,
}
use bfxfixgw.Fix.{SessionId}
use bfxfixgw.Inbound.MarketData.{flat}
use bfxfixgw.Outbound.{Handled, handled, send_message}
use bfxfixgw.Peer.Cache.{lookup_md_req_id}
use bfxfixgw.Symbol.{Symbology}
use bfxfixgw.World.{Env, Peer}

module _ {F D : Type 0} ⦃fl : Floats F⦄ ⦃dc : Decimals F D⦄ (env : Env F D) (symbology : Symbology)
    (session : SessionId) where
  -- FIXTradeHandler
  unfoldable pub fix_trade_handler : Trade F → Peer F D → Handled × Peer F D
  fix_trade_handler t p = elim (lookup_md_req_id t.pair p.cache) [
    | none ↦ (handled, p)
    | some id ↦
        send_message env
          (incremental_refresh_from_trade session.begin_string id t symbology
            session.target_comp_id)
          p
  ]

  -- FIXTradeSnapshotHandler
  unfoldable pub fix_trade_snapshot_handler : List (Trade F) → Peer F D → Handled × Peer F D
  fix_trade_snapshot_handler [] p = (handled, p)
  fix_trade_snapshot_handler (t ∷ rest) p = elim (lookup_md_req_id t.pair p.cache) [
    | none ↦ (handled, p)
    | some id ↦
        send_message env
          (flat (
            full_refresh_from_trade_snapshot session.begin_string id (t ∷ rest) symbology
              session.target_comp_id))
          p
  ]

  -- FIXBookSnapshot
  unfoldable pub fix_book_snapshot : List (BookUpdate F) → Peer F D → Handled × Peer F D
  fix_book_snapshot [] p = (handled, p)
  fix_book_snapshot (u ∷ rest) p = elim (lookup_md_req_id u.symbol p.cache) [
    | none ↦ (handled, p)
    | some id ↦
        send_message env
          (flat (
            full_refresh_from_book_snapshot session.begin_string id (u ∷ rest) symbology
              session.target_comp_id))
          p
  ]

  -- FIXBookUpdate
  unfoldable pub fix_book_update : BookUpdate F → Peer F D → Handled × Peer F D
  fix_book_update u p = elim (lookup_md_req_id u.symbol p.cache) [
    | none ↦ (handled, p)
    | some id ↦
        send_message env
          (incremental_refresh_from_book_update session.begin_string id u symbology
            session.target_comp_id)
          p
  ]
