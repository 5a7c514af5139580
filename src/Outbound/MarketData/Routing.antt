-- ===== src/Outbound/MarketData/Routing.antt =====
-- The market data of a subscription goes out under the id of its request.
use bfxfixgw.Base.{ℕ, String, ◌≡◌, refl, some, List, ◌∷◌}
use bfxfixgw.Base.Floats.{Floats, Decimals}
use bfxfixgw.Base.Maps.{Order, lookup}
use bfxfixgw.Convert.Fields.{IsVersion, is_fix42, is_fix44, is_fixt11}
use bfxfixgw.Convert.MarketData.{
  Trade, BookUpdate, incremental_refresh, incremental_refresh_from_trade,
  incremental_refresh_from_book_update,
}
use bfxfixgw.Convert.Reports.{new_message}
use bfxfixgw.Fix.{
  Value, text, BeginString, FieldMap, SessionId, GenericFix, set, set_group, get, get_in,
}
use bfxfixgw.Fix.Tag
use bfxfixgw.Inbound.MarketData.{MdRequest, next}
use bfxfixgw.Inbound.MarketData.Caches.{translated}
use bfxfixgw.Inbound.MarketData.Refusals.{Asks, mapped_by_round}
use bfxfixgw.Inbound.MarketData.Rounds.{symbol_round}
use bfxfixgw.Outbound.{send_message}
use bfxfixgw.Outbound.MarketData.{fix_trade_handler, fix_book_update}
use bfxfixgw.Peer.Cache.{lookup_md_req_id}
use bfxfixgw.Symbol.{Symbology}
use bfxfixgw.World.{Env, Peer, sent}

module _ {F D : Type 0} where
  -- One message has been sent, and it carries the request id.
  abbrev pub IsSentUnder : (md_req_id : String) → (p p' : Peer F D) → Type 0
  IsSentUnder md_req_id p p' =
      (m : GenericFix D) × (p'.log ≡ sent m ∷ p.log) × (get Tag.md_req_id m ≡ some (text md_req_id))

  refresh-IsSentUnder :
      {v : BeginString} (env : Env F D) (md_req_id : String) (entry : List (ℕ × Value D))
      (p : Peer F D)
      → IsVersion v
      → IsSentUnder md_req_id p (send_message env (incremental_refresh v md_req_id entry) p).1
  unfolding send_message incremental_refresh new_message set set_group get_in
  refresh-IsSentUnder env md_req_id entry p is_fix42 = (_, refl, refl)
  refresh-IsSentUnder env md_req_id entry p is_fix44 = (_, refl, refl)
  refresh-IsSentUnder env md_req_id entry p is_fixt11 = (_, refl, refl)

module _ {F D : Type 0} ⦃fl : Floats F⦄ ⦃dc : Decimals F D⦄ (env : Env F D) (symbology : Symbology)
    (session : SessionId) (msg : FieldMap D) (q : MdRequest) where
  -- Once a round of a market data request has asked for a symbol and goes on, a trade and a book
  -- update of the Bitfinex symbol are each sent to the client at once, in one message with the
  -- id of that request, in every version of FIX that the gateway speaks.
  pub updates-IsSentUnder :
      (r : Order String) (fix_symbol : String) (p p' : Peer F D) (t : Trade F) (u : BookUpdate F)
      → IsVersion session.begin_string
      → Asks env symbology session msg q
      → symbol_round env symbology session msg q r fix_symbol p ≡ next p'
      → t.pair ≡ translated env symbology session msg q fix_symbol
      → u.symbol ≡ translated env symbology session msg q fix_symbol
      → IsSentUnder q.md_req_id p' (fix_trade_handler env symbology session t p').1
        × IsSentUnder q.md_req_id p' (fix_book_update env symbology session u p').1
  unfolding fix_trade_handler fix_book_update lookup_md_req_id incremental_refresh_from_trade
      incremental_refresh_from_book_update
  updates-IsSentUnder r fix_symbol p p' t u v asks e on_pair on_symbol =
      let mapped = mapped_by_round env symbology session msg q r fix_symbol p p' asks e in
      let at_trade : lookup t.pair p'.cache.symbol_to_req_id ≡ some q.md_req_id =
        rw on_pair mapped in
      let at_book : lookup u.symbol p'.cache.symbol_to_req_id ≡ some q.md_req_id =
        rw on_symbol mapped in
      (
        rw (at_trade, fix_trade_handler) (refresh-IsSentUnder env q.md_req_id _ p' v),
        rw (at_book, fix_book_update) (refresh-IsSentUnder env q.md_req_id _ p' v),
      )
