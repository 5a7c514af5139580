-- ===== src/Fix.antt =====
-- The FIX messages, as the program handles them through quickfix. What quickfix does with a
-- message (the wire format, the data dictionary, the sessions) is not part of the program.
pub mod Tag
pub mod OrdStatus
pub mod ExecType
pub mod OrdType
pub mod Side
pub mod TimeInForce
pub mod ExecInst
pub mod DisplayMethod
pub mod CashMargin
pub mod ContingencyType
pub mod CxlRejReason
pub mod CxlRejResponseTo
pub mod MdEntryType
pub mod MdUpdateAction
pub mod MdReqRejReason
pub mod SubscriptionRequestType
pub mod IdSource
pub mod CommType
pub mod ExecTransType
pub mod SettlPriceType
pub mod BusinessRejectReason
use bfxfixgw.Base.{
  ℕ, String, Bool, Option, none, some, List, [], ◌∷◌, ◌++◌, nat_eq, if◌then◌else◌, ◌≡◌, refl, ◌⊎◌,
  inl, inr,
}
use bfxfixgw.Base.Int.{ℤ}
use bfxfixgw.Base.Time.{Time}

-- quickfix.MessageRejectError, and the errors that the program makes of it.
pub data Reject : Type 0 where
  conditionally_required_field_missing : ℕ → Reject
  incorrect_data_format : ℕ → Reject
  value_is_incorrect : ℕ → Reject
  message_reject : String → Reject
  business_reject : String → Reject

pub data Result {ℓ} (A : Type ℓ) : Type ℓ where
  ok : A → Result A
  err : Reject → Result A

infixl 5 ◌>>=◌
abbrev pub ◌>>=◌ {ℓ κ} : {A : Type ℓ} {B : Type κ} → Result A → (A → Result B) → Result B
ok a >>= f = f a
err e >>= f = err e

pub Result-cases {ℓ} :
    {A : Type ℓ} (r : Result A) → ((e : Reject) × (r ≡ err e)) ⊎ ((a : A) × (r ≡ ok a))
Result-cases (ok a) = inr (a, refl)
Result-cases (err e) = inl (e, refl)

-- The values that a message carries: `D` stands for decimal.Decimal.
pub data Value (D : Type 0) : Type 0 where
  text : String → Value D
  int : ℤ → Value D
  dec : D → (scale : ℕ) → Value D
  time : Time → Value D

-- An outgoing message: the constructor that it was built with, and its fields and the entries of
-- its repeating group, the one set last in front.
pub data Kind : Type 0 where
  execution_report order_cancel_reject market_data_snapshot market_data_incremental : Kind
  market_data_request_reject business_message_reject position_report logout : Kind

pub data BeginString : Type 0 where
  fix42 fix44 fixt11 : BeginString
  unsupported : String → BeginString

pub record GenericFix (D : Type 0) : Type 0 where
  pub version : BeginString
  pub kind : Kind
  pub fields : List (ℕ × Value D)
  pub group : List (List (ℕ × Value D))

module _ {D : Type 0} where
  -- message.Set(field)
  unfoldable pub set : ℕ × Value D → GenericFix D → GenericFix D
  set f m = record m { fields = f ∷ m.fields }

  -- message.SetGroup(group)
  unfoldable pub set_group : List (List (ℕ × Value D)) → GenericFix D → GenericFix D
  set_group g m = record m { group = g }

  -- What the last Set left in a field, if any.
  unfoldable pub get_in : ℕ → List (ℕ × Value D) → Option (Value D)
  get_in tag [] = none
  get_in tag ((t, v) ∷ fs) = if nat_eq t tag then some v else get_in tag fs

  abbrev pub get : ℕ → GenericFix D → Option (Value D)
  get tag m = get_in tag m.fields

-- An incoming message: the answers of quickfix.FieldMap. `get_string` stands for every field whose
-- value is a text, the enumerations included.
pub record FieldMap (D : Type 0) : Type 0 where
  pub has : ℕ → Bool
  pub get_string : ℕ → Result String
  pub get_decimal : ℕ → Result D
  pub get_time : ℕ → Result Time
  pub get_int : ℕ → Result ℤ
  pub get_bool : ℕ → Result Bool
  -- The symbols of the group NoRelatedSym.
  pub get_related_symbols : Result (List (Result String))

-- The value of a field variable after `_ = msg.Get(field)`.
abbrev pub text_or_empty : Result String → String
text_or_empty (ok s) = s
text_or_empty (err e) = ""

-- quickfix.SessionID
pub record SessionId : Type 0 where
  pub begin_string : BeginString
  pub target_comp_id : String
  -- sID.String()
  pub name : String

-- The text of a BeginString.
abbrev pub version_text : BeginString → String
version_text fix42 = "FIX.4.2"
version_text fix44 = "FIX.4.4"
version_text fixt11 = "FIXT.1.1"
version_text (unsupported s) = s
