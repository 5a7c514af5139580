-- ===== src/Outbound/Auth.antt =====
-- The logout messages: FIXHandleAuth of service/websocket/fix_msg.go, and logout of
-- service/fix/fix_msg.go. Neither looks for a peer, so they take the log of what has been sent.
use bfxfixgw.Base.{String, none, some, List, [], ◌∷◌, ◌==◌, if◌then◌else◌}
use bfxfixgw.Convert.Reports.{new_message}
use bfxfixgw.Fix.{text, SessionId, logout, set}
use bfxfixgw.Fix.Tag
use bfxfixgw.Outbound.{Handled, handled, failed_with, of_error}
use bfxfixgw.World.{Env, Event, sent}

abbrev pub unsupported_begin_string_text : String
unsupported_begin_string_text = "Unsupported BeginString"

-- websocket.AuthEvent
pub record AuthEvent : Type 0 where
  pub status : String
  pub message : String

module _ {F D : Type 0} where
  -- logout
  unfoldable pub send_logout :
      Env F D → SessionId → (message : String) → List (Event F D) → Handled × List (Event F D)
  unfolding new_message
  send_logout env session message log = elim (new_message session.begin_string logout []) [
    | none ↦ (failed_with unsupported_begin_string_text, log)
    | some msg ↦
        let m = set (Tag.text, text message) msg in (of_error (env.send log m), sent m ∷ log)
  ]

  -- FIXHandleAuth
  unfoldable pub fix_handle_auth :
      Env F D → SessionId → AuthEvent → List (Event F D) → Handled × List (Event F D)
  unfolding send_logout
  fix_handle_auth env session auth log =
      if auth.status == "FAILED" then send_logout env session auth.message log else (handled, log)
