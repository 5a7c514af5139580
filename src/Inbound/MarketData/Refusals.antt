-- ===== src/Inbound/MarketData/Refusals.antt =====
-- Requests that OnFIXMarketDataRequest refuses although they are what a client should send: the
-- end of a subscription, and a second symbol.
use Prim.Native.String.{◌++◌ as join}
use mathlib.Core.Path.{subst}
use bfxfixgw.Base.{
  ℕ, suc, String, ◌≡◌, refl, sym, ◌∙◌, true, false, none, some, List, [], ◌∷◌, arith, ◌==◌, eq_iff,
  Bool-cases, Option-cases, inl, inr, ◌⊎◌,
}
use bfxfixgw.Base.Floats.{Floats, Decimals}
use bfxfixgw.Base.Maps.{Order, IsOrder, lookup, lookup-assign}
use bfxfixgw.Base.Maps.Entries.{Every-lookup}
use bfxfixgw.Fix.{FieldMap, SessionId, Result, ok, err}
use bfxfixgw.Fix.MdReqRejReason
use bfxfixgw.Fix.SubscriptionRequestType
use bfxfixgw.Inbound.MarketData.{MdRequest, Round, next, read_md_request}
use bfxfixgw.Inbound.MarketData.Caches.{
  peer_of, translated, Round-cases, go_on-peer, cache-snapshot_round, cache-subscribe_round,
  cache-symbol_round,
}
use bfxfixgw.Inbound.MarketData.Properties.{AreOrders, Changed-IsMdValid}
use bfxfixgw.Inbound.MarketData.Rounds.{
  return_send, go_on, reject_request, unsubscribe_round, switch_round, symbol_round, rounds,
  market_data_request_for,
}
use bfxfixgw.Inbound.MarketData.Valid.{IsMdValid, md_req_id_used}
use bfxfixgw.Peer.Cache.{
  Cache, Ids, map_symbol_to_req_id, lookup_md_req_id, md_req_id_exists, lookup_api_req_ids,
  map_md_req_ids,
}
use bfxfixgw.Symbol.{Symbology}
use bfxfixgw.World.{Env, Peer, Event, unsubscribed, Outcome, send_to_target}

module _ {F D : Type 0} where
  -- How often a log asks the websocket to unsubscribe.
  abbrev pub unsubscriptions : List (Event F D) → ℕ
  unsubscriptions [] = 0
  unsubscriptions (unsubscribed id ∷ l) = suc (unsubscriptions l)
  unsubscriptions (e ∷ l) = unsubscriptions l

  -- The cache is as before, and nothing has been unsubscribed.
  abbrev pub IsQuiet : (p p' : Peer F D) → Type 0
  IsQuiet p p' = (p'.cache ≡ p.cache) × (unsubscriptions p'.log ≡ unsubscriptions p.log)

module _ {F D : Type 0} ⦃fl : Floats F⦄ ⦃dc : Decimals F D⦄ (env : Env F D) (symbology : Symbology)
    (session : SessionId) (msg : FieldMap D) (q : MdRequest) where
  reject_request-IsQuiet :
      (message reason : String) (p : Peer F D)
      → IsQuiet p (reject_request env symbology session msg q message reason p).1
  unfolding reject_request send_to_target
  reject_request-IsQuiet message reason p = ground arith

  -- The websocket ids of a request id are there only if the id is in use.
  no_api_ids :
      (r : Order String) (c : Cache F)
      → IsOrder r
      → IsMdValid c
      → md_req_id_exists r q.md_req_id c ≡ false
      → lookup_api_req_ids q.md_req_id c ≡ none
  unfolding lookup_api_req_ids
  no_api_ids r c o v unused = elim (Option-cases (lookup q.md_req_id c.md_req_ids)) [
    | inl missing ↦ rw missing
    | inr (ids, at) ↦
        let (s, mapped) =
          Every-lookup
            (λ (e : String × Ids). (s : String) × (lookup s c.symbol_to_req_id ≡ some e.0))
            c.md_req_ids q.md_req_id ids v.tracked at in
        cc (md_req_id_used r q.md_req_id s c o v.symbols mapped)
  ]

  abbrev refused : (message reason : String) (p : Peer F D) → Outcome × Peer F D
  refused = reject_request env symbology session msg q

  disable_switch :
      (symbol : String) (p : Peer F D)
      → q.sub_type ≡ SubscriptionRequestType.disable_previous_snapshot_plus_update_request
      → lookup_api_req_ids q.md_req_id p.cache ≡ none
      → switch_round env symbology session msg q symbol p
        ≡ go_on (
            refused
              (join "could not find subscription for MDReqID: " q.md_req_id)
              MdReqRejReason.unknown_symbol
              p)
  unfolding switch_round unsubscribe_round
  disable_switch symbol p disable no_ids =
      rw (disable, switch_round) (rw (no_ids, unsubscribe_round))

  IsQuiet-by :
      (p : Peer F D) (x y : Round F D) → x ≡ y → IsQuiet p (peer_of y) → IsQuiet p (peer_of x)
  IsQuiet-by p x y e = subst (λ z. IsQuiet p (peer_of z)) (sym e)

  go_on-IsQuiet :
      (p : Peer F D) (x : Outcome × Peer F D) → IsQuiet p x.1 → IsQuiet p (peer_of (go_on x))
  go_on-IsQuiet p x h = rw go_on-peer h

  disable_round-IsQuiet :
      (r : Order String) (fix_symbol : String) (p : Peer F D)
      → IsOrder r
      → IsMdValid p.cache
      → q.sub_type ≡ SubscriptionRequestType.disable_previous_snapshot_plus_update_request
      → IsQuiet p (peer_of (symbol_round env symbology session msg q r fix_symbol p))
  unfolding symbol_round
  disable_round-IsQuiet r fix_symbol p o v disable =
      let symbol = translated env symbology session msg q fix_symbol in
      elim (Bool-cases (md_req_id_exists r q.md_req_id p.cache)) [
        | inl used ↦ rw used (reject_request-IsQuiet _ _ p)
        | inr unused ↦ elim (Option-cases (lookup_md_req_id symbol p.cache)) [
          | inr (id, old) ↦ rw (unused, old) (reject_request-IsQuiet _ _ p)
          | inl new ↦
              let no_ids = no_api_ids r p.cache o v unused in
              IsQuiet-by p (symbol_round env symbology session msg q r fix_symbol p)
                (switch_round env symbology session msg q symbol p) (rw (unused, new))
                (IsQuiet-by p _ _ (disable_switch symbol p disable no_ids)
                  (go_on-IsQuiet p _ (reject_request-IsQuiet _ _ p)))
        ]
      ]

  disable_rounds-IsQuiet :
      (ranges : ℕ → Order String) (i : ℕ) (symbols : List (Result String)) (p : Peer F D)
      → AreOrders ranges
      → IsMdValid p.cache
      → q.sub_type ≡ SubscriptionRequestType.disable_previous_snapshot_plus_update_request
      → IsQuiet p (rounds env symbology session msg q ranges i symbols p).1
  unfolding rounds
  disable_rounds-IsQuiet ranges i [] p o v disable = (refl, refl)
  disable_rounds-IsQuiet ranges i (err e ∷ rest) p o v disable = (refl, refl)
  disable_rounds-IsQuiet ranges i (ok s ∷ rest) p o v disable =
      let quiet = disable_round-IsQuiet (ranges i) s p (o i) v disable in
      elim (Round-cases (symbol_round env symbology session msg q (ranges i) s p)) [
        | inl (out, p', e) ↦ rw (e, rounds) (subst (λ y. IsQuiet p (peer_of y)) e quiet)
        | inr (p', e) ↦
            let quiet' = subst (λ y. IsQuiet p (peer_of y)) e quiet in
            let w = subst IsMdValid (sym quiet'.0) v in
            let later = disable_rounds-IsQuiet ranges (suc i) rest p' o w disable in
            rw (e, rounds) (later.0 ∙ quiet'.0, later.1 ∙ quiet'.1)
      ]

  -- A snapshot, or a snapshot with updates.
  abbrev pub Asks : Type 0
  Asks =
      (q.sub_type ≡ SubscriptionRequestType.snapshot)
      ⊎ (q.sub_type ≡ SubscriptionRequestType.snapshot_plus_updates)

  mapped_by_switch :
      (symbol : String) (p : Peer F D)
      → Asks
      → lookup symbol
          (peer_of (switch_round env symbology session msg q symbol p)).cache.symbol_to_req_id
        ≡ some q.md_req_id
  unfolding switch_round map_symbol_to_req_id map_md_req_ids
  mapped_by_switch symbol p (inl snap) =
      let yes0 : (q.sub_type == SubscriptionRequestType.snapshot) ≡ true = rw snap in
      rw (yes0, switch_round)
        (rw (cache-snapshot_round env symbology session msg q symbol p)
          (rw (lookup-assign, (eq_iff symbol symbol).1 refl)))
  mapped_by_switch symbol p (inr sub) =
      let no0 : (q.sub_type == SubscriptionRequestType.snapshot) ≡ false = rw sub in
      let yes1 : (q.sub_type == SubscriptionRequestType.snapshot_plus_updates) ≡ true = rw sub in
      rw (no0, switch_round)
        (rw yes1 (elim (cache-subscribe_round env symbology session msg q symbol p) [
          | inl same ↦ rw same (rw (lookup-assign, (eq_iff symbol symbol).1 refl))
          | inr (b, t, same) ↦ rw same (rw (lookup-assign, (eq_iff symbol symbol).1 refl))
        ]))

  -- A round that goes on has mapped its symbol to the request id.
  pub mapped_by_round :
      (r : Order String) (fix_symbol : String) (p p' : Peer F D)
      → Asks
      → symbol_round env symbology session msg q r fix_symbol p ≡ next p'
      → lookup (translated env symbology session msg q fix_symbol) p'.cache.symbol_to_req_id
        ≡ some q.md_req_id
  unfolding symbol_round
  mapped_by_round r fix_symbol p p' asks e =
      let symbol = translated env symbology session msg q fix_symbol in
      elim (Bool-cases (md_req_id_exists r q.md_req_id p.cache)) [
        | inl used ↦ cc (rw used at e)
        | inr unused ↦ elim (Option-cases (lookup_md_req_id symbol p.cache)) [
          | inr (id, old) ↦ cc (rw (unused, old) at e)
          | inl new ↦
              let e' : switch_round env symbology session msg q symbol p ≡ next p' =
                rw (unused, new) at e in
              subst (λ x. lookup symbol (peer_of x).cache.symbol_to_req_id ≡ some q.md_req_id) e'
                (mapped_by_switch symbol p asks)
        ]
      ]

  -- If the first symbol of a snapshot or a subscription has been dealt with and the handler goes
  -- on, then it ends at the second symbol, whatever that is, by refusing the request id as a
  -- duplicate: no later symbol of the request is asked of Bitfinex.
  pub second_symbol_refused :
      (ranges : ℕ → Order String) (i : ℕ) (s t : String) (rest : List (Result String))
      (p p' : Peer F D)
      → AreOrders ranges
      → Asks
      → IsMdValid p.cache
      → symbol_round env symbology session msg q (ranges i) s p ≡ next p'
      → rounds env symbology session msg q ranges i (ok s ∷ ok t ∷ rest) p
        ≡ refused
            (join "duplicate MDReqID by session: " q.md_req_id)
            MdReqRejReason.duplicate_mdreqid
            p'
  unfolding rounds symbol_round
  second_symbol_refused ranges i s t rest p p' o asks v e =
      let mapped = mapped_by_round (ranges i) s p p' asks e in
      let x = symbol_round env symbology session msg q (ranges i) s p in
      let w : IsMdValid (peer_of x).cache =
        Changed-IsMdValid env symbology session msg q (ranges i)
          (translated env symbology session msg q s) p.cache (peer_of x).cache (o i) v
          (cache-symbol_round env symbology session msg q (ranges i) s p) in
      let symbols = (subst (λ y. IsMdValid (peer_of y).cache) e w).symbols in
      let used =
        md_req_id_used (ranges (suc i)) q.md_req_id (translated env symbology session msg q s)
          p'.cache (o (suc i)) symbols mapped in
      let message = join "duplicate MDReqID by session: " q.md_req_id in
      let second : symbol_round env symbology session msg q (ranges (suc i)) t p'
          ≡ return_send (refused message MdReqRejReason.duplicate_mdreqid p') =
        rw used in
      rw (e, rounds) (rw (second, rounds))

module _ {F D : Type 0} ⦃fl : Floats F⦄ ⦃dc : Decimals F D⦄ where
  -- In every session whose bookkeeping of subscriptions is valid, a readable request to end a
  -- subscription unsubscribes from nothing and leaves the cache as it is.
  pub disable_never_unsubscribes :
      (ranges : ℕ → Order String) (env : Env F D) (symbology : Symbology) (session : SessionId)
      (msg : FieldMap D) (q : MdRequest) (p : Peer F D)
      → AreOrders ranges
      → IsMdValid p.cache
      → read_md_request msg ≡ ok q
      → q.sub_type ≡ SubscriptionRequestType.disable_previous_snapshot_plus_update_request
      → IsQuiet p (market_data_request_for ranges env symbology session msg p).1
  unfolding market_data_request_for
  disable_never_unsubscribes ranges env symbology session msg q p o v e disable =
      rw (e, market_data_request_for)
        (disable_rounds-IsQuiet env symbology session msg q ranges 0 q.symbols p o v disable)
