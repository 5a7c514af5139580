-- ===== src/Outbound/Positions.antt =====
-- The handlers of wallets, positions and balances in service/websocket/fix_msg.go.
use bfxfixgw.Base.{some, List, [], ◌∷◌}
use bfxfixgw.Base.Floats.{Floats, Decimals}
use bfxfixgw.Convert.Positions.{
  Wallet, Position, position_report_from_wallet, position_report_from_position,
}
use bfxfixgw.Fix.{GenericFix, SessionId, version_text}
use bfxfixgw.Outbound.{Handled, handled, failed_with, crashed, send_message}
use bfxfixgw.Symbol.{Symbology}
use bfxfixgw.World.{Env, Peer}

-- bitfinex.BalanceInfo
pub record BalanceInfo (F : Type 0) : Type 0 where
  pub total_aum : F
  pub net_aum : F

module _ {F D : Type 0} where
  -- for _, a := range l { if err := SendToTarget(report(a)); err != nil { return err } }
  unfoldable pub send_each :
      {A : Type 0}
      → Env F D
      → (A → Peer F D → GenericFix D)
      → List A
      → Peer F D
      → Handled × Peer F D
  send_each env report [] p = (handled, p)
  send_each env report (a ∷ rest) p =
      let (result, p') = send_message env (some (report a p)) p in
      elim result [
        | handled ↦ send_each env report rest p'
        | failed_with e ↦ (failed_with e, p')
        | crashed ↦ (crashed, p')
      ]

module _ {F D : Type 0} ⦃fl : Floats F⦄ ⦃dc : Decimals F D⦄ (env : Env F D) (symbology : Symbology)
    (session : SessionId) where
  abbrev pub wallet_report : Wallet F → Peer F D → GenericFix D
  wallet_report w p =
      position_report_from_wallet (version_text session.begin_string) (env.new_uuid p.log)
        (env.today p.log) w p.bfx_user_id

  abbrev pub position_report : Position F → Peer F D → GenericFix D
  position_report x p =
      position_report_from_position (version_text session.begin_string) (env.new_uuid p.log)
        (env.today p.log) x p.bfx_user_id symbology session.target_comp_id

  -- FIXWalletSnapshotHandler
  unfoldable pub fix_wallet_snapshot_handler : List (Wallet F) → Peer F D → Handled × Peer F D
  unfolding send_each
  fix_wallet_snapshot_handler = send_each env wallet_report

  -- FIXWalletUpdateHandler
  unfoldable pub fix_wallet_update_handler : Wallet F → Peer F D → Handled × Peer F D
  unfolding fix_wallet_snapshot_handler
  fix_wallet_update_handler w = fix_wallet_snapshot_handler (w ∷ [])

  -- FIXPositionSnapshotHandler
  unfoldable pub fix_position_snapshot_handler : List (Position F) → Peer F D → Handled × Peer F D
  unfolding send_each
  fix_position_snapshot_handler = send_each env position_report

  -- FIXPositionUpdateHandler
  unfoldable pub fix_position_update_handler : Position F → Peer F D → Handled × Peer F D
  unfolding fix_position_snapshot_handler
  fix_position_update_handler x = fix_position_snapshot_handler (x ∷ [])

  -- FIXBalanceInfoHandler
  unfoldable pub fix_balance_info_handler : BalanceInfo F → Peer F D → Handled × Peer F D
  unfolding fix_wallet_update_handler
  fix_balance_info_handler s = fix_wallet_update_handler (record {
    type = "balance";
    currency = "all";
    balance = s.total_aum;
    unsettled_interest = fl.zero;
    balance_available = s.net_aum;
  })

  -- FIXBalanceUpdateHandler
  unfoldable pub fix_balance_update_handler : BalanceInfo F → Peer F D → Handled × Peer F D
  unfolding fix_balance_info_handler
  fix_balance_update_handler s = fix_balance_info_handler s
