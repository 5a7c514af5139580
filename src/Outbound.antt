-- ===== src/Outbound.antt =====
-- service/websocket/fix_msg.go: the messages of Bitfinex, and what they tell the FIX clients. Each
-- handler is modelled for a session that has a peer; without one it logs a warning and returns nil.
pub mod MarketData
pub mod Orders
pub mod Positions
pub mod Notifications
pub mod Snapshots
pub mod Auth
pub mod Evolves
pub mod Survives
use bfxfixgw.Base.{String, ◌≡◌, refl, ◌⊎◌, inl, inr, Option, none, some, List, [], ◌∷◌}
use bfxfixgw.Fix.{GenericFix}
use bfxfixgw.World.{Env, Peer, note, sent}

-- How a handler ends: with nil, with an error, or with a panic.
pub data Handled : Type 0 where
  handled : Handled
  failed_with : String → Handled
  crashed : Handled

pub Handled-cases :
    (h : Handled) → (h ≡ handled) ⊎ ((e : String) × (h ≡ failed_with e)) ⊎ (h ≡ crashed)
Handled-cases handled = inl refl
Handled-cases (failed_with e) = inr (inl (e, refl))
Handled-cases crashed = inr (inr refl)

abbrev pub of_error : Option String → Handled
of_error none = handled
of_error (some e) = failed_with e

module _ {F D : Type 0} where
  -- quickfix.SendToTarget, with a message that may have panicked while it was built
  unfoldable pub send_message : Env F D → Option (GenericFix D) → Peer F D → Handled × Peer F D
  send_message env none p = (crashed, p)
  send_message env (some m) p = (of_error (env.send p.log m), note (sent m) p)
