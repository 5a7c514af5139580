-- ===== src/Inbound/MarketData/Rounds.antt =====
-- The loop of OnFIXMarketDataRequest over the symbols of the request.
use Prim.Native.String.{◌++◌ as join}
use bfxfixgw.Base.{ℕ, suc, String, ◌||◌, none, some, List, [], ◌∷◌, ◌==◌, if◌then◌else◌}
use bfxfixgw.Base.Floats.{Floats, Decimals}
use bfxfixgw.Base.Maps.{Order}
use bfxfixgw.Convert.FromFix.{or_same}
use bfxfixgw.Convert.MarketData.{full_refresh_from_book_snapshot}
use bfxfixgw.Fix.{FieldMap, SessionId, Result, ok, err, message_reject}
use bfxfixgw.Fix.MdReqRejReason
use bfxfixgw.Fix.SubscriptionRequestType
use bfxfixgw.Inbound.MarketData.{
  MdRequest, Round, return, next, build_market_data_request_reject, subscription_precision,
  read_md_request, show_error, flat,
}
use bfxfixgw.Peer.Cache.{
  is_some, map_symbol_to_req_id, lookup_md_req_id, md_req_id_exists, map_md_req_ids,
  lookup_api_req_ids,
}
use bfxfixgw.Symbol.{Symbology}
use bfxfixgw.World.{
  Env, Peer, got, failed, Outcome, done, rejected, note, asked_book, subscribed_book,
  subscribed_trades, unsubscribed, send_to_target,
}

module _ {F D : Type 0} where
  -- return sendToTarget(…)
  abbrev pub return_send : Outcome × Peer F D → Round F D
  return_send (o, p) = return o p

  -- if errSend := sendToTarget(…); errSend != nil { return errSend }
  abbrev pub go_on : Outcome × Peer F D → Round F D
  go_on (done, p) = next p
  go_on (o, p) = return o p

  abbrev pub map_symbol : (symbol md_req_id : String) → Peer F D → Peer F D
  map_symbol symbol md_req_id p = record p { cache = map_symbol_to_req_id symbol md_req_id p.cache }

module _ {F D : Type 0} ⦃fl : Floats F⦄ ⦃dc : Decimals F D⦄ (env : Env F D) (symbology : Symbology)
    (session : SessionId) (msg : FieldMap D) (q : MdRequest) where
  unfoldable pub reject_request : (message reason : String) → Peer F D → Outcome × Peer F D
  unfolding send_to_target build_market_data_request_reject
  reject_request message reason p =
      send_to_target env
        (build_market_data_request_reject session.begin_string q.md_req_id message reason) p

  -- case SNAPSHOT
  unfoldable pub snapshot_round : (symbol : String) → Peer F D → Round F D
  unfolding reject_request
  snapshot_round symbol p0 =
      let p = map_symbol symbol q.md_req_id p0 in
      let p' = note (asked_book symbol q.precision q.depth) p in
      elim (env.book_all p.log symbol q.precision q.depth) [
        | failed e ↦ return_send (reject_request e MdReqRejReason.unknown_symbol p')
        | got book ↦ go_on (
            send_to_target env
              (flat (
                full_refresh_from_book_snapshot session.begin_string q.md_req_id book symbology
                  session.target_comp_id))
              p')
      ]

  -- The subscription to the trades, after that to the book; where it fails the book is given up.
  unfoldable pub subscribe_trades_round : (symbol book_req_id : String) → Peer F D → Round F D
  unfolding reject_request
  subscribe_trades_round symbol book_req_id p =
      let p' = note (subscribed_trades symbol) p in
      elim (env.subscribe_trades p.log symbol) [
        | failed e ↦
            let p'' = note (unsubscribed book_req_id) p' in
            let message : String = elim (env.unsubscribe p'.log book_req_id) [
              | none ↦ e
              | some e' ↦ join e (join " occurred, and also unable to subscribe due to " e')
            ] in
            return_send (reject_request message MdReqRejReason.unknown_symbol p'')
        | got trade_req_id ↦
            next
              (record p' { cache = map_md_req_ids q.md_req_id book_req_id trade_req_id p'.cache })
      ]

  -- case SNAPSHOT_PLUS_UPDATES
  unfoldable pub subscribe_round : (symbol : String) → Peer F D → Round F D
  unfolding reject_request subscribe_trades_round
  subscribe_round symbol p0 =
      let p = map_symbol symbol q.md_req_id p0 in
      let prec = subscription_precision q msg in
      let p' = note (subscribed_book symbol prec q.depth) p in
      elim (env.subscribe_book p.log symbol prec q.depth) [
        | failed e ↦ return_send (reject_request e MdReqRejReason.unknown_symbol p')
        | got book_req_id ↦ subscribe_trades_round symbol book_req_id p'
      ]

  unfoldable pub unsubscribe_both :
      (book_req_id trade_req_id : String) → Peer F D → Outcome × Peer F D
  unsubscribe_both book_req_id trade_req_id p =
      let e1 = env.unsubscribe p.log book_req_id in
      let p1 = note (unsubscribed book_req_id) p in
      let e2 = env.unsubscribe p1.log trade_req_id in
      let p2 = note (unsubscribed trade_req_id) p1 in
      if is_some e1 || is_some e2
      then (
        rejected (
            message_reject (
              join "Unsubscribe book / trade errors: "
                (join (show_error e1) (join " / " (show_error e2))))),
        p2,
      )
      else (done, p2)

  -- case DISABLE_PREVIOUS_SNAPSHOT_PLUS_UPDATE_REQUEST
  unfoldable pub unsubscribe_round : Peer F D → Round F D
  unfolding reject_request unsubscribe_both
  unsubscribe_round p = elim (lookup_api_req_ids q.md_req_id p.cache) [
    | some (book_req_id, trade_req_id) ↦ return_send (unsubscribe_both book_req_id trade_req_id p)
    | none ↦ go_on (
        reject_request (join "could not find subscription for MDReqID: " q.md_req_id)
          MdReqRejReason.unknown_symbol p)
  ]

  -- The `switch` on the subscription type.
  unfoldable pub switch_round : (symbol : String) → Peer F D → Round F D
  unfolding reject_request snapshot_round subscribe_round unsubscribe_round
  switch_round symbol p =
      if q.sub_type == SubscriptionRequestType.snapshot
      then snapshot_round symbol p
      else if q.sub_type == SubscriptionRequestType.snapshot_plus_updates
      then subscribe_round symbol p
      else if q.sub_type == SubscriptionRequestType.disable_previous_snapshot_plus_update_request
      then unsubscribe_round p
      else go_on (
          reject_request (join "subscription type not supported: " q.sub_type)
            MdReqRejReason.unsupported_subscriptionrequesttype p)

  -- One round for a symbol, with the order in which MDReqIDExists ranges over the symbols.
  unfoldable pub symbol_round : Order String → (fix_symbol : String) → Peer F D → Round F D
  unfolding reject_request switch_round
  symbol_round r fix_symbol p =
      let symbol = or_same fix_symbol (symbology.to_bitfinex fix_symbol session.target_comp_id) in
      if md_req_id_exists r q.md_req_id p.cache
      then return_send (
          reject_request (join "duplicate MDReqID by session: " q.md_req_id)
            MdReqRejReason.duplicate_mdreqid p)
      else if is_some (lookup_md_req_id symbol p.cache)
      then return_send (
          reject_request
            (join "duplicate symbol subscription for \""
              (join symbol "\", one subscription per symbol allowed"))
            MdReqRejReason.duplicate_mdreqid p)
      else switch_round symbol p

  -- The loop, with the order of each round.
  unfoldable pub rounds :
      (ranges : ℕ → Order String) → ℕ → List (Result String) → Peer F D → Outcome × Peer F D
  rounds ranges i [] p = (done, p)
  rounds ranges i (err e ∷ rest) p = (rejected e, p)
  rounds ranges i (ok fix_symbol ∷ rest) p = elim (symbol_round (ranges i) fix_symbol p) [
    | return o p' ↦ (o, p')
    | next p' ↦ rounds ranges (suc i) rest p'
  ]

module _ {F D : Type 0} ⦃fl : Floats F⦄ ⦃dc : Decimals F D⦄ where
  -- OnFIXMarketDataRequest for a session that has a peer
  unfoldable pub market_data_request_for :
      (ranges : ℕ → Order String)
      → Env F D
      → Symbology
      → SessionId
      → FieldMap D
      → Peer F D
      → Outcome × Peer F D
  unfolding rounds read_md_request
  market_data_request_for ranges env symbology session msg p = elim (read_md_request msg) [
    | err r ↦ (rejected r, p)
    | ok q ↦ rounds env symbology session msg q ranges 0 q.symbols p
  ]
