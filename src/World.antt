-- ===== src/World.antt =====
-- One session as a handler sees it: the peer with its cache, and the world around it. What the
-- FIX acceptor, the websocket and the REST client answer is a parameter, and may depend on all that
-- the peer did before; what a handler asks of them is recorded in a log.
use bfxfixgw.Base.{String, Bool, Option, none, some, List, ◌∷◌, ◌≡◌, refl, ◌⊎◌, inl, inr}
use bfxfixgw.Base.Int.{ℤ}
use bfxfixgw.Convert.FromFix.{OrderNewRequest}
use bfxfixgw.Convert.MarketData.{BookUpdate}
use bfxfixgw.Convert.Reports.{Order, TradeExecutionUpdate}
use bfxfixgw.Fix.{GenericFix, Reject, message_reject}
use bfxfixgw.Peer.Cache.{Cache}

-- bitfinex.OrderUpdateRequest
pub record OrderUpdateRequest (F : Type 0) : Type 0 where
  pub id : ℤ
  pub gid : ℤ
  pub amount : F
  pub price : F
  pub price_aux_limit : F
  pub price_trailing : F
  pub hidden : Bool
  pub post_only : Bool
  pub time_in_force : String
  pub leverage : ℤ

-- bitfinex.OrderCancelRequest: by the server's id, or by the client's id and its date
pub record OrderCancelRequest : Type 0 where
  pub id : ℤ
  pub cid : ℤ
  pub cid_date : String

-- What a handler asks of the outside.
pub data Event (F D : Type 0) : Type 0 where
  sent : GenericFix D → Event F D
  submitted : OrderNewRequest F → Event F D
  updated : OrderUpdateRequest F → Event F D
  canceled : OrderCancelRequest → Event F D
  asked_order : ℤ → Event F D
  asked_trades : (symbol : String) → ℤ → Event F D
  asked_book : (symbol precision : String) → (depth : ℤ) → Event F D
  subscribed_book : (symbol precision : String) → (depth : ℤ) → Event F D
  subscribed_trades : (symbol : String) → Event F D
  unsubscribed : (id : String) → Event F D
  -- Credentials, CancelOnDisconnect and Connect
  connected : (api_key api_secret : String) → (cancel_on_disconnect : Bool) → Event F D

-- A result or the text of an error.
pub data Answer (A : Type 0) : Type 0 where
  got : A → Answer A
  failed : String → Answer A

pub Answer-cases :
    {A : Type 0} (a : Answer A) → ((e : String) × (a ≡ failed e)) ⊎ ((x : A) × (a ≡ got x))
Answer-cases (got x) = inr (x, refl)
Answer-cases (failed e) = inl (e, refl)

-- The answers of the outside, after the events of a log. `none` is no error.
pub record Env (F D : Type 0) : Type 0 where
  pub send : List (Event F D) → GenericFix D → Option String
  pub submit_order : List (Event F D) → OrderNewRequest F → Option String
  pub submit_update : List (Event F D) → OrderUpdateRequest F → Option String
  pub send_cancel : List (Event F D) → OrderCancelRequest → Option String
  pub order_by_id : List (Event F D) → ℤ → Answer (Order F)
  -- `got none` is a nil snapshot
  pub order_trades : List (Event F D) → String → ℤ → Answer (Option (List (TradeExecutionUpdate F)))
  pub book_all : List (Event F D) → String → String → ℤ → Answer (List (BookUpdate F))
  pub subscribe_book : List (Event F D) → String → String → ℤ → Answer String
  pub subscribe_trades : List (Event F D) → String → Answer String
  pub unsubscribe : List (Event F D) → String → Option String
  -- p.Ws.Connect()
  pub connect : List (Event F D) → Option String
  -- whether p.Ws.LookupSubscription finds the id
  pub has_subscription : List (Event F D) → String → Bool
  -- the local market date of a position report
  pub today : List (Event F D) → String
  -- uuid.NewV4().String()
  pub new_uuid : List (Event F D) → String

-- peer.Peer, the part that the handlers use, and the log, the latest event in front
pub record Peer (F D : Type 0) : Type 0 where
  pub cache : Cache F
  pub bfx_user_id : String
  pub log : List (Event F D)

-- How a FIX handler ends: with nil, with a reject, or with a panic.
pub data Outcome : Type 0 where
  done : Outcome
  rejected : Reject → Outcome
  panicked : Outcome

-- reject(err)
abbrev pub reject_of : Option String → Outcome
reject_of none = done
reject_of (some e) = rejected (message_reject e)

module _ {F D : Type 0} where
  abbrev pub note : Event F D → Peer F D → Peer F D
  note e p = record p { log = e ∷ p.log }

  -- sendToTarget, with a message that may have panicked while it was built
  unfoldable pub send_to_target : Env F D → Option (GenericFix D) → Peer F D → Outcome × Peer F D
  send_to_target env none p = (panicked, p)
  send_to_target env (some m) p = (reject_of (env.send p.log m), note (sent m) p)
