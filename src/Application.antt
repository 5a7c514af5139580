-- ===== src/Application.antt =====
-- service/fix/fix.go: the FIX application of a service. The goroutine that FromAdmin starts is
-- `on_disconnect`, for what it does when it receives from the channel; when it can receive is in
-- Peer/Lifecycle. quickfix's own routing is a parameter.
pub mod Requests
pub mod Logons
use Prim.Native.String.{◌++◌ as join}
use bfxfixgw.Base.{
  ℕ, String, Bool, true, false, Option, none, some, List, [], ◌∷◌, ◌==◌, ◌&&◌, if◌then◌else◌,
}
use bfxfixgw.Fix.{FieldMap, SessionId, Result, Reject, ok, err, text_or_empty, message_reject}
use bfxfixgw.Fix.Tag
use bfxfixgw.Outbound.{Handled, handled, failed_with, crashed}
use bfxfixgw.Outbound.Auth.{send_logout}
use bfxfixgw.Service.{Service, add_peer, find_peer, put_peer, remove_peer}
use bfxfixgw.World.{Env, Peer, Outcome, done, rejected, panicked, note, connected}

-- What FromAdmin reads of a Logon: a field that is there but empty ends it without an error.
pub data Field : Type 0 where
  refused : Reject → Field
  empty : Field
  filled : String → Field

unfoldable pub field_of : Result String → Field
field_of (err e) = refused e
field_of (ok s) = if s == "" then empty else filled s

pub record Credentials : Type 0 where
  pub api_key : String
  pub api_secret : String
  pub bfx_user_id : String

pub data Logon : Type 0 where
  returned : Outcome → Logon
  credentials : Credentials → Logon

-- cod, _ := msg.Body.GetBool(tagCancelOnDisconnect)
abbrev pub bool_or_false : Result Bool → Bool
bool_or_false (ok b) = b
bool_or_false (err e) = false

module _ {D : Type 0} where
  unfoldable pub read_logon : FieldMap D → Logon
  unfolding field_of
  read_logon msg = elim (field_of (msg.get_string Tag.bfx_api_key)) [
    | refused e ↦ returned (rejected e)
    | empty ↦ returned done
    | filled key ↦ elim (field_of (msg.get_string Tag.bfx_api_secret)) [
      | refused e ↦ returned (rejected e)
      | empty ↦ returned done
      | filled secret ↦ elim (field_of (msg.get_string Tag.bfx_user_id)) [
        | refused e ↦ returned (rejected e)
        | empty ↦ returned done
        | filled user ↦
            credentials (record { api_key = key; api_secret = secret; bfx_user_id = user })
      ]
    ]
  ]

module _ {F D : Type 0} where
  -- Peer.Logon of service/peer/peer.go, without its last statement, `go p.listen()`
  unfoldable pub logon :
      Env F D → Credentials → (cancel_on_disconnect : Bool) → Peer F D → Option String × Peer F D
  logon env c cod p =
      let p1 : Peer F D = record p { bfx_user_id = c.bfx_user_id } in
      (env.connect p1.log, note (connected c.api_key c.api_secret cod) p1)

  -- logout of service/fix/fix_msg.go, on the log of the service
  unfoldable pub logout_session :
      Env F D → SessionId → (message : String) → Service F D → Handled × Service F D
  unfolding send_logout
  logout_session env session message s =
      let (result, log) = send_logout env session message s.log in (result, record s { log = log })

  -- The rest of FromAdmin, once the credentials are read.
  unfoldable pub connect_peer :
      Env F D → SessionId → FieldMap D → Credentials → Service F D → Outcome × Service F D
  unfolding find_peer put_peer logon logout_session
  connect_peer env session msg c s = elim (find_peer session.name s) [
    | none ↦ (done, s)
    | some p ↦
        let (error, p') = logon env c (bool_or_false (msg.get_bool Tag.cancel_on_disconnect)) p in
        let s1 = put_peer session.name p' s in
        elim error [
          | none ↦ (done, s1)
          | some e ↦
              let (result, s2) = logout_session env session e s1 in
              elim result [
                | handled ↦ (done, s2)
                | failed_with e2 ↦ (rejected (message_reject e2), s2)
                | crashed ↦ (panicked, s2)
              ]
        ]
  ]

  -- FromAdmin; `is_logon` is msg.IsMsgTypeOf("A")
  unfoldable pub from_admin :
      Env F D → (is_logon : Bool) → SessionId → FieldMap D → Service F D → Outcome × Service F D
  unfolding read_logon connect_peer add_peer
  from_admin env is_logon session msg s =
      let added = add_peer session s in
      if is_logon
      then elim (read_logon msg) [
        | returned out ↦ (out, added)
        | credentials c ↦ connect_peer env session msg c added
      ]
      else (done, s)

  -- What the goroutine of FromAdmin does with the value `dc` of the peer's channel: an error of
  -- logout is a panic.
  unfoldable pub on_disconnect :
      Env F D → (dc : Bool) → SessionId → Service F D → Handled × Service F D
  unfolding find_peer logout_session
  on_disconnect env dc session s = elim (find_peer session.name s) [
    | none ↦ (handled, s)
    | some p ↦
        if dc
        then (let (result, s') = logout_session env session "downstream disconnect" s in
            elim result [
              | handled ↦ (handled, s')
              | failed_with e ↦ (crashed, s')
              | crashed ↦ (crashed, s')
            ])
        else (handled, s)
  ]

  -- OnLogout
  unfoldable pub on_logout : SessionId → Service F D → Service F D
  unfolding remove_peer
  on_logout session s = (remove_peer session.name s).1
