-- ===== src/Inbound/MarketData/Caches.antt =====
-- What a round of OnFIXMarketDataRequest does to the cache.
use mathlib.Core.Path.{subst}
use bfxfixgw.Base.{
  String, ◌≡◌, refl, sym, false, Option, none, some, arith, ◌==◌, Bool-cases, Option-cases, inl,
  inr, ◌⊎◌,
}
use bfxfixgw.Base.Floats.{Floats, Decimals}
use bfxfixgw.Base.Maps.{Order}
use bfxfixgw.Convert.FromFix.{or_same}
use bfxfixgw.Fix.{FieldMap, SessionId, GenericFix}
use bfxfixgw.Fix.SubscriptionRequestType
use bfxfixgw.Inbound.MarketData.{MdRequest, Round, return, next, subscription_precision}
use bfxfixgw.Inbound.MarketData.Rounds.{
  go_on, reject_request, snapshot_round, subscribe_trades_round, subscribe_round, unsubscribe_both,
  unsubscribe_round, switch_round, symbol_round,
}
use bfxfixgw.Peer.Cache.{
  Cache, map_symbol_to_req_id, lookup_md_req_id, md_req_id_exists, map_md_req_ids,
}
use bfxfixgw.Symbol.{Symbology}
use bfxfixgw.World.{Env, Peer, Outcome, done, rejected, panicked, send_to_target, Answer-cases}

module _ {F D : Type 0} where
  -- The peer that a round leaves.
  abbrev pub peer_of : Round F D → Peer F D
  peer_of (return o p) = p
  peer_of (next p) = p

  pub Round-cases :
      (x : Round F D)
      → ((o : Outcome) × (p : Peer F D) × (x ≡ return o p)) ⊎ ((p : Peer F D) × (x ≡ next p))
  Round-cases (return o p) = inl (o, p, refl)
  Round-cases (next p) = inr (p, refl)

  pub go_on-peer : (x : Outcome × Peer F D) → peer_of (go_on x) ≡ x.1
  go_on-peer (done, p) = refl
  go_on-peer (rejected r, p) = refl
  go_on-peer (panicked, p) = refl

  pub cache-send :
      (env : Env F D) (m : Option (GenericFix D)) (p : Peer F D)
      → (send_to_target env m p).1.cache ≡ p.cache
  unfolding send_to_target
  cache-send env none p = refl
  cache-send env (some m) p = refl

module _ {F D : Type 0} ⦃fl : Floats F⦄ ⦃dc : Decimals F D⦄ (env : Env F D) (symbology : Symbology)
    (session : SessionId) (msg : FieldMap D) (q : MdRequest) where
  pub cache-reject_request :
      (message reason : String) (p : Peer F D)
      → (reject_request env symbology session msg q message reason p).1.cache ≡ p.cache
  unfolding reject_request
  cache-reject_request message reason p = cache-send env _ p

  pub cache-snapshot_round :
      (symbol : String) (p : Peer F D)
      → (peer_of (snapshot_round env symbology session msg q symbol p)).cache
        ≡ map_symbol_to_req_id symbol q.md_req_id p.cache
  unfolding snapshot_round reject_request send_to_target
  cache-snapshot_round symbol p = ground arith

  -- The cache after a failed, and after a successful subscription to the trades.
  abbrev pub Subscribed : (c c' : Cache F) → Type 0
  Subscribed c c' =
      (c' ≡ c)
      ⊎ ((book_req_id : String) × (trade_req_id : String) × (c'
            ≡ map_md_req_ids q.md_req_id book_req_id trade_req_id c))

  cache-subscribe_trades_round :
      (symbol book_req_id : String) (p : Peer F D)
      → Subscribed p.cache
          (peer_of (subscribe_trades_round env symbology session msg q symbol book_req_id p)).cache
  unfolding subscribe_trades_round
  cache-subscribe_trades_round symbol book_req_id p =
      elim (Answer-cases (env.subscribe_trades p.log symbol)) [
        | inl (e, failing) ↦ rw (failing, subscribe_trades_round) (inl (cache-reject_request _ _ _))
        | inr (id, success) ↦ rw (success, subscribe_trades_round) (inr (book_req_id, id, refl))
      ]

  pub cache-subscribe_round :
      (symbol : String) (p : Peer F D)
      → Subscribed
          (map_symbol_to_req_id symbol q.md_req_id p.cache)
          (peer_of (subscribe_round env symbology session msg q symbol p)).cache
  unfolding subscribe_round
  cache-subscribe_round symbol p =
      let prec = subscription_precision q msg in
      elim (Answer-cases (env.subscribe_book p.log symbol prec q.depth)) [
        | inl (e, failing) ↦ rw (failing, subscribe_round) (inl (cache-reject_request _ _ _))
        | inr (id, success) ↦
            rw (success, subscribe_round) (cache-subscribe_trades_round symbol id _)
      ]

  cache-unsubscribe_round :
      (p : Peer F D) → (peer_of (unsubscribe_round env symbology session msg q p)).cache ≡ p.cache
  unfolding unsubscribe_round unsubscribe_both reject_request send_to_target
  cache-unsubscribe_round p = ground arith

  cache-go_on_reject :
      (message reason : String) (p : Peer F D)
      → (peer_of (go_on (reject_request env symbology session msg q message reason p))).cache
        ≡ p.cache
  cache-go_on_reject message reason p = rw go_on-peer (cache-reject_request message reason p)

  -- A round leaves the cache alone, or maps a new symbol to a new id, or does that and keeps the
  -- websocket ids of the subscription.
  abbrev pub Changed : Order String → (symbol : String) → (c c' : Cache F) → Type 0
  Changed r symbol c c' =
      (c' ≡ c)
      ⊎ ((md_req_id_exists r q.md_req_id c ≡ false)
          × (lookup_md_req_id symbol c ≡ none)
          × Subscribed (map_symbol_to_req_id symbol q.md_req_id c) c')

  cache-switch_round :
      (r : Order String) (symbol : String) (p : Peer F D)
      → md_req_id_exists r q.md_req_id p.cache ≡ false
      → lookup_md_req_id symbol p.cache ≡ none
      → Changed r symbol p.cache (peer_of (switch_round env symbology session msg q symbol p)).cache
  unfolding switch_round
  cache-switch_round r symbol p unused new =
      elim (Bool-cases (q.sub_type == SubscriptionRequestType.snapshot)) [
        | inl yes1 ↦ rw yes1 (inr (unused, new, inl (cache-snapshot_round symbol p)))
        | inr no1 ↦
            elim (Bool-cases (q.sub_type == SubscriptionRequestType.snapshot_plus_updates)) [
              | inl yes2 ↦ rw (no1, yes2) (inr (unused, new, cache-subscribe_round symbol p))
              | inr no2 ↦
                  elim (Bool-cases (
                    q.sub_type
                    == SubscriptionRequestType.disable_previous_snapshot_plus_update_request)) [
                      | inl yes3 ↦ rw (no1, no2, yes3) (inl (cache-unsubscribe_round p))
                      | inr no3 ↦ rw (no1, no2, no3) (inl (cache-go_on_reject _ _ p))
                    ]
            ]
      ]

  abbrev pub translated : (fix_symbol : String) → String
  translated fix_symbol =
      or_same fix_symbol (symbology.to_bitfinex fix_symbol session.target_comp_id)

  pub cache-symbol_round :
      (r : Order String) (fix_symbol : String) (p : Peer F D)
      → Changed r
          (translated fix_symbol)
          p.cache
          (peer_of (symbol_round env symbology session msg q r fix_symbol p)).cache
  unfolding symbol_round
  cache-symbol_round r fix_symbol p = elim (Bool-cases (md_req_id_exists r q.md_req_id p.cache)) [
    | inl used ↦ rw used (inl (cache-reject_request _ _ p))
    | inr unused ↦ elim (Option-cases (lookup_md_req_id (translated fix_symbol) p.cache)) [
      | inr (id, old) ↦ rw (unused, old) (inl (cache-reject_request _ _ p))
      | inl new ↦
          let this = symbol_round env symbology session msg q r fix_symbol p in
          let switch = switch_round env symbology session msg q (translated fix_symbol) p in
          let same : this ≡ switch = rw (unused, new) in
          subst (λ x. Changed r (translated fix_symbol) p.cache (peer_of x).cache) (sym same)
            (cache-switch_round r (translated fix_symbol) p unused new)
    ]
  ]
