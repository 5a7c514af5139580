-- ===== src/Outbound/Survives/Handlers.antt =====
-- No market data handler of service/websocket/fix_msg.go panics in a session of a version that the
-- gateway speaks.
use bfxfixgw.Base.{Option-cases, inl, inr, List, [], ◌∷◌}
use bfxfixgw.Base.Floats.{Floats, Decimals}
use bfxfixgw.Convert.Fields.{IsVersion}
use bfxfixgw.Convert.MarketData.{
  Trade, BookUpdate, incremental_refresh_from_trade, incremental_refresh_from_book_update,
}
use bfxfixgw.Fix.{SessionId}
use bfxfixgw.Outbound.MarketData.{fix_trade_handler, fix_book_snapshot, fix_book_update}
use bfxfixgw.Outbound.Notifications.{}
use bfxfixgw.Outbound.Orders.{}
use bfxfixgw.Outbound.Positions.{}
use bfxfixgw.Outbound.Snapshots.{}
use bfxfixgw.Peer.Cache.{lookup_md_req_id}
use bfxfixgw.Symbol.{Symbology}
use bfxfixgw.World.{Env, Peer}
use bfxfixgw.Outbound.Survives.{Survives, send-Survives, incremental-IsBuilt, snapshot-IsBuilt}

module _ {F D : Type 0} ⦃fl : Floats F⦄ ⦃dc : Decimals F D⦄ (env : Env F D) (symbology : Symbology)
    (session : SessionId) (v : IsVersion session.begin_string) where
  pub fix_trade_handler-Survives :
      (t : Trade F) (p : Peer F D) → Survives (fix_trade_handler env symbology session t p).0
  unfolding fix_trade_handler incremental_refresh_from_trade
  fix_trade_handler-Survives t p = elim (Option-cases (lookup_md_req_id t.pair p.cache)) [
    | inl missing ↦ rw (missing, fix_trade_handler) tt
    | inr (id, hit) ↦
        rw (hit, fix_trade_handler) (send-Survives env _ p (incremental-IsBuilt id _ v))
  ]

  pub fix_book_update-Survives :
      (u : BookUpdate F) (p : Peer F D) → Survives (fix_book_update env symbology session u p).0
  unfolding fix_book_update incremental_refresh_from_book_update
  fix_book_update-Survives u p = elim (Option-cases (lookup_md_req_id u.symbol p.cache)) [
    | inl missing ↦ rw (missing, fix_book_update) tt
    | inr (id, hit) ↦ rw (hit, fix_book_update) (send-Survives env _ p (incremental-IsBuilt id _ v))
  ]

  pub fix_book_snapshot-Survives :
      (l : List (BookUpdate F)) (p : Peer F D)
      → Survives (fix_book_snapshot env symbology session l p).0
  unfolding fix_book_snapshot
  fix_book_snapshot-Survives [] p = tt
  fix_book_snapshot-Survives (u ∷ l) p = elim (Option-cases (lookup_md_req_id u.symbol p.cache)) [
    | inl missing ↦ rw (missing, fix_book_snapshot) tt
    | inr (id, hit) ↦
        rw (hit, fix_book_snapshot) (send-Survives env _ p (snapshot-IsBuilt id u l symbology _ v))
  ]
