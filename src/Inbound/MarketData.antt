-- ===== src/Inbound/MarketData.antt =====
-- OnFIXMarketDataRequest of service/fix/fix_msg.go.
pub mod Rounds
pub mod Valid
pub mod Caches
pub mod Properties
pub mod Refusals
use Prim.Native.String.{◌++◌ as join}
use bfxfixgw.Base.{
  ℕ, suc, String, Bool, true, false, not, ◌&&◌, ◌||◌, Option, none, some, List, [], ◌∷◌, ◌==◌, leb,
  if◌then◌else◌,
}
use bfxfixgw.Base.Floats.{Floats, Decimals}
use bfxfixgw.Base.Int.{ℤ, pos, negsuc}
use bfxfixgw.Base.Maps.{Order}
use bfxfixgw.Base.Text.Decimal.{format_int}
use bfxfixgw.Convert.FromFix.{or_same}
use bfxfixgw.Convert.MarketData.{full_refresh_from_book_snapshot}
use bfxfixgw.Convert.Reports.{new_message}
use bfxfixgw.Fix.{
  Value, text, BeginString, GenericFix, FieldMap, SessionId, Result, Reject, ok, err,
  message_reject, business_reject, market_data_request_reject, set, ◌>>=◌,
}
use bfxfixgw.Fix.MdReqRejReason
use bfxfixgw.Fix.SubscriptionRequestType
use bfxfixgw.Fix.Tag
use bfxfixgw.Peer.Cache.{
  Cache, is_some, map_symbol_to_req_id, lookup_md_req_id, md_req_id_exists, map_md_req_ids,
  lookup_api_req_ids,
}
use bfxfixgw.Symbol.{Symbology}
use bfxfixgw.World.{
  Env, Peer, Answer, got, failed, Outcome, done, rejected, panicked, note, asked_book,
  subscribed_book, subscribed_trades, unsubscribed, reject_of, send_to_target,
}

abbrev pub precision0 : String
precision0 = "P0"

abbrev pub precision_raw_book : String
precision_raw_book = "R0"

-- validatePrecision: `none` for a precision that it does not know
unfoldable pub validate_precision : String → Option String
validate_precision prec =
    if prec == "P0" || prec == "P1" || prec == "P2" || prec == "P3" || prec == "R0"
    then some prec
    else none

module _ {D : Type 0} where
  -- buildMarketDataRequestReject
  unfoldable pub build_market_data_request_reject :
      BeginString → (md_req_id message rej_reason : String) → Option (GenericFix D)
  unfolding new_message
  build_market_data_request_reject v md_req_id message rej_reason =
      elim (new_message v market_data_request_reject ((Tag.md_req_id, text md_req_id) ∷ [])) [
        | none ↦ none
        | some rej ↦
            some (set (Tag.md_req_rej_reason, text rej_reason) (set (Tag.text, text message) rej))
      ]

-- What the handler has read from the message before it looks at a symbol.
pub record MdRequest : Type 0 where
  pub symbols : List (Result String)
  pub md_req_id : String
  pub sub_type : String
  pub depth : ℤ
  pub precision : String
  pub override_precision : Bool

-- The depth: negative is refused, and 0 stands for 100.
unfoldable pub check_depth : ℤ → Result ℤ
check_depth (negsuc n) = err (
    business_reject (join "invalid market depth for market data request: " (format_int (negsuc n))))
check_depth (pos n) = ok (if leb n 0 then pos 100 else pos n)

-- The precision, and whether the message asked for one.
unfoldable pub check_precision : Result String → Result (String × Bool)
unfolding validate_precision
check_precision (err e) = ok (precision0, false)
check_precision (ok prec) = elim (validate_precision prec) [
  | none ↦ err (business_reject (join "invalid precision for market data request: " prec))
  | some p ↦ ok (p, true)
]

abbrev pub some_symbol : List (Result String) → Result (List (Result String))
some_symbol [] = err (message_reject "no symbol provided")
some_symbol (s ∷ l) = ok (s ∷ l)

module _ {D : Type 0} where
  unfoldable pub read_md_request : FieldMap D → Result MdRequest
  unfolding check_depth check_precision
  read_md_request msg = do
    related ← msg.get_related_symbols
    symbols ← some_symbol related
    md_req_id ← msg.get_string Tag.md_req_id
    sub_type ← msg.get_string Tag.subscription_request_type
    asked ← msg.get_int Tag.market_depth
    depth ← check_depth asked
    (precision, override) ← check_precision (msg.get_string Tag.price_precision)
    ok (record {
      symbols = symbols;
      md_req_id = md_req_id;
      sub_type = sub_type;
      depth = depth;
      precision = precision;
      override_precision = override;
    })

  -- The precision of a subscription: without an override, AggregatedBook=N asks for the raw book.
  unfoldable pub subscription_precision : MdRequest → FieldMap D → String
  subscription_precision q msg =
      if q.override_precision then q.precision else elim (msg.get_bool Tag.aggregated_book) [
        | ok true ↦ precision0
        | ok false ↦ precision_raw_book
        | err e ↦ precision0
      ]

-- How one round of the loop ends: with a `return`, or with the next symbol.
pub data Round (F D : Type 0) : Type 0 where
  return : Outcome → Peer F D → Round F D
  next : Peer F D → Round F D

-- %v of an error
abbrev pub show_error : Option String → String
show_error none = "<nil>"
show_error (some e) = e

abbrev pub flat : {A : Type 0} → Option (Option A) → Option A
flat none = none
flat (some m) = m
