-- ===== src/Convert/MarketData.antt =====
-- convert/fix_msg.go: market data as full and incremental refreshes. A function that panics on a
-- BeginString returns `panic` there.
use bfxfixgw.Base.{ℕ, String, Option, none, some, List, [], ◌∷◌, map, ◌==◌, if◌then◌else◌}
use bfxfixgw.Base.Floats.{Floats, Decimals, magnitude}
use bfxfixgw.Convert.FromFix.{or_same}
use bfxfixgw.Convert.Reports.{new_message}
use bfxfixgw.Convert.ToFix.{BookAction, book_action_to_fix}
use bfxfixgw.Fix.{
  Value, text, dec, BeginString, GenericFix, set, set_group, market_data_snapshot,
  market_data_incremental,
}
use bfxfixgw.Fix.IdSource
use bfxfixgw.Fix.MdEntryType
use bfxfixgw.Fix.MdUpdateAction
use bfxfixgw.Fix.Tag
use bfxfixgw.Symbol.{Symbology}

-- bitfinex.Trade
pub record Trade (F : Type 0) : Type 0 where
  pub pair : String
  pub price : F
  pub amount : F

-- bitfinex.OrderSide
pub data BookSide : Type 0 where
  bid ask : BookSide
  no_side : BookSide

-- bitfinex.BookUpdate
pub record BookUpdate (F : Type 0) : Type 0 where
  pub symbol : String
  pub price : F
  pub amount : F
  pub side : BookSide
  pub action : BookAction

-- The `switch` on the side; `t` keeps its zero value for any other side.
unfoldable pub entry_type_of_side : BookSide → String
entry_type_of_side bid = MdEntryType.bid
entry_type_of_side ask = MdEntryType.offer
entry_type_of_side no_side = ""

module _ {D : Type 0} where
  -- The part that the two full refreshes share, for the symbol of the first element.
  unfoldable pub full_refresh :
      BeginString
      → (md_req_id symbol : String) → Symbology
      → (counterparty : String) → List (List (ℕ × Value D))
      → Option (GenericFix D)
  unfolding new_message
  full_refresh v md_req_id symbol symbology counterparty entries =
      let sym = or_same symbol (symbology.from_bitfinex symbol counterparty) in
      elim (new_message v market_data_snapshot ((Tag.symbol, text sym) ∷ [])) [
        | none ↦ none
        | some m ↦ some (
            set_group entries (
              set (Tag.id_source, text IdSource.exchange_symbol)
                (set (Tag.security_id, text sym)
                  (set (Tag.symbol, text sym) (set (Tag.md_req_id, text md_req_id) m)))))
      ]

  -- The part that the two incremental refreshes share.
  unfoldable pub incremental_refresh :
      BeginString → (md_req_id : String) → List (ℕ × Value D) → Option (GenericFix D)
  unfolding new_message
  incremental_refresh v md_req_id entry = elim (new_message v market_data_incremental []) [
    | none ↦ none
    | some m ↦ some (set_group (entry ∷ []) (set (Tag.md_req_id, text md_req_id) m))
  ]

module _ {F D : Type 0} ⦃fl : Floats F⦄ ⦃dc : Decimals F D⦄ where
  unfoldable pub trade_entry : Trade F → List (ℕ × Value D)
  trade_entry update =
      (Tag.md_entry_size, dec (dc.of_float (magnitude update.amount)) 4)
      ∷ (Tag.md_entry_px, dec (dc.of_float update.price) 4)
      ∷ (Tag.md_entry_type, text MdEntryType.trade)
      ∷ []

  unfoldable pub book_entry : BookUpdate F → List (ℕ × Value D)
  unfolding entry_type_of_side
  book_entry update =
      (Tag.md_entry_size, dec (dc.of_float (magnitude update.amount)) 4)
      ∷ (Tag.md_entry_px, dec (dc.of_float update.price) 4)
      ∷ (Tag.md_entry_type, text (entry_type_of_side update.side))
      ∷ []

  -- FIXMarketDataFullRefreshFromTradeSnapshot; `some none` is the nil message of an empty snapshot
  unfoldable pub full_refresh_from_trade_snapshot :
      BeginString
      → (md_req_id : String) → List (Trade F)
      → Symbology
      → (counterparty : String) → Option (Option (GenericFix D))
  unfolding full_refresh trade_entry
  full_refresh_from_trade_snapshot v md_req_id [] symbology counterparty = some none
  full_refresh_from_trade_snapshot v md_req_id (first ∷ rest) symbology counterparty =
      elim (full_refresh v md_req_id first.pair symbology counterparty
        (map trade_entry (first ∷ rest))) [ none ↦ none | some m ↦ some (some m) ]

  -- FIXMarketDataFullRefreshFromBookSnapshot
  unfoldable pub full_refresh_from_book_snapshot :
      BeginString
      → (md_req_id : String) → List (BookUpdate F)
      → Symbology
      → (counterparty : String) → Option (Option (GenericFix D))
  unfolding full_refresh book_entry
  full_refresh_from_book_snapshot v md_req_id [] symbology counterparty = some none
  full_refresh_from_book_snapshot v md_req_id (first ∷ rest) symbology counterparty =
      elim (full_refresh v md_req_id first.symbol symbology counterparty
        (map book_entry (first ∷ rest))) [ none ↦ none | some m ↦ some (some m) ]

  -- The entry that FIXMarketDataIncrementalRefreshFromTrade adds.
  unfoldable pub trade_update_entry : Trade F → (sym : String) → List (ℕ × Value D)
  trade_update_entry trade sym =
      (Tag.symbol, text sym)
      ∷ (Tag.md_entry_size, dec (dc.of_float (magnitude trade.amount)) 4)
      ∷ (Tag.id_source, text IdSource.exchange_symbol)
      ∷ (Tag.security_id, text sym)
      ∷ (Tag.md_entry_px, dec (dc.of_float trade.price) 4)
      ∷ (Tag.md_update_action, text MdUpdateAction.new)
      ∷ (Tag.md_entry_type, text MdEntryType.trade)
      ∷ []

  -- FIXMarketDataIncrementalRefreshFromTrade
  unfoldable pub incremental_refresh_from_trade :
      BeginString
      → (md_req_id : String) → Trade F
      → Symbology
      → (counterparty : String) → Option (GenericFix D)
  unfolding incremental_refresh trade_update_entry
  incremental_refresh_from_trade v md_req_id trade symbology counterparty =
      let sym = or_same trade.pair (symbology.from_bitfinex trade.pair counterparty) in
      incremental_refresh v md_req_id (trade_update_entry trade sym)

  -- The entry that FIXMarketDataIncrementalRefreshFromBookUpdate adds: a deletion has no size.
  unfoldable pub book_update_entry_of : BookUpdate F → (sym : String) → List (ℕ × Value D)
  unfolding book_action_to_fix entry_type_of_side
  book_update_entry_of update sym =
      let action = book_action_to_fix update.action in
      let base : List (ℕ × Value D) =
        (Tag.id_source, text IdSource.exchange_symbol)
        ∷ (Tag.security_id, text sym)
        ∷ (Tag.md_entry_px, dec (dc.of_float update.price) 4)
        ∷ (Tag.md_update_action, text action)
        ∷ (Tag.md_entry_type, text (entry_type_of_side update.side))
        ∷ [] in
      let sized : List (ℕ × Value D) =
        if action == MdUpdateAction.delete
        then base
        else (Tag.md_entry_size, dec (dc.of_float (magnitude update.amount)) 4) ∷ base in
      (Tag.symbol, text sym) ∷ sized

  -- FIXMarketDataIncrementalRefreshFromBookUpdate
  unfoldable pub incremental_refresh_from_book_update :
      BeginString
      → (md_req_id : String) → BookUpdate F
      → Symbology
      → (counterparty : String) → Option (GenericFix D)
  unfolding incremental_refresh book_update_entry_of
  incremental_refresh_from_book_update v md_req_id update symbology counterparty =
      let sym = or_same update.symbol (symbology.from_bitfinex update.symbol counterparty) in
      incremental_refresh v md_req_id (book_update_entry_of update sym)
