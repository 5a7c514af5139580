-- ===== src/Inbound/MarketData/Properties.antt =====
-- What OnFIXMarketDataRequest keeps, and what it does with a second symbol and a cancellation.
use mathlib.Core.Path.{subst}
use bfxfixgw.Base.{ℕ, suc, String, ◌≡◌, ◌∙◌, ap, refl, sym, List, [], ◌∷◌, eq_iff, inl, inr}
use bfxfixgw.Base.Floats.{Floats, Decimals}
use bfxfixgw.Base.Maps.{Order, IsOrder, lookup-assign}
use bfxfixgw.Fix.{FieldMap, SessionId, Result, ok, err, Result-cases}
use bfxfixgw.Inbound.MarketData.{MdRequest, read_md_request}
use bfxfixgw.Inbound.MarketData.Caches.{
  peer_of, Changed, translated, Round-cases, cache-symbol_round,
}
use bfxfixgw.Inbound.MarketData.Rounds.{symbol_round, rounds, market_data_request_for}
use bfxfixgw.Inbound.MarketData.Valid.{IsMdValid, map_symbol-IsMdValid, map_ids-IsMdValid}
use bfxfixgw.Peer.Cache.{Cache, map_symbol_to_req_id, map_md_req_ids, lookup_md_req_id}
use bfxfixgw.Peer.Cache.Runs.{IsReachable, goes_on, maps_symbol, maps_ids}
use bfxfixgw.Symbol.{Symbology}
use bfxfixgw.World.{Env, Peer}

-- Every range loop visits every entry once.
abbrev pub AreOrders : (ℕ → Order String) → Type 0
AreOrders ranges = (i : ℕ) → IsOrder (ranges i)

module _ {F D : Type 0} ⦃fl : Floats F⦄ ⦃dc : Decimals F D⦄ (env : Env F D) (symbology : Symbology)
    (session : SessionId) (msg : FieldMap D) (q : MdRequest) where
  pub Changed-IsMdValid :
      (r : Order String) (symbol : String) (c c' : Cache F)
      → IsOrder r
      → IsMdValid c
      → Changed env symbology session msg q r symbol c c'
      → IsMdValid c'
  unfolding lookup_md_req_id
  Changed-IsMdValid r symbol c c' o v (inl same) = subst IsMdValid (sym same) v
  Changed-IsMdValid r symbol c c' o v (inr (unused, new, inl same)) =
      subst IsMdValid (sym same) (map_symbol-IsMdValid r symbol q.md_req_id c o v unused new)
  Changed-IsMdValid r symbol c c' o v (inr (unused, new, inr (b, t, same))) =
      subst IsMdValid (sym same) (
        map_ids-IsMdValid symbol q.md_req_id b t (map_symbol_to_req_id symbol q.md_req_id c)
          (map_symbol-IsMdValid r symbol q.md_req_id c o v unused new)
          (unfold map_symbol_to_req_id in rw (lookup-assign, (eq_iff symbol symbol).1 refl)))

  -- What every change of the cache keeps, the rounds keep.
  rounds-keep :
      (P : Cache F → Type 0)
      → ((r : Order String) (symbol : String) (c c' : Cache F)
          → IsOrder r
          → P c
          → Changed env symbology session msg q r symbol c c'
          → P c')
      → (ranges : ℕ → Order String) (i : ℕ) (symbols : List (Result String)) (p : Peer F D)
      → AreOrders ranges
      → P p.cache
      → P (rounds env symbology session msg q ranges i symbols p).1.cache
  unfolding rounds
  rounds-keep P keep ranges i [] p o v = v
  rounds-keep P keep ranges i (err e ∷ rest) p o v = v
  rounds-keep P keep ranges i (ok s ∷ rest) p o v =
      let x = symbol_round env symbology session msg q (ranges i) s p in
      let w =
        keep (ranges i) (translated env symbology session msg q s) p.cache (peer_of x).cache (o i) v
          (cache-symbol_round env symbology session msg q (ranges i) s p) in
      elim (Round-cases x) [
        | inl (out, p', e) ↦ rw (e, rounds) (subst (λ y. P (peer_of y).cache) e w)
        | inr (p', e) ↦
            rw (e, rounds)
              (rounds-keep P keep ranges (suc i) rest p' o (subst (λ y. P (peer_of y).cache) e w))
      ]

module _ {F D : Type 0} ⦃fl : Floats F⦄ ⦃dc : Decimals F D⦄ (env : Env F D) (symbology : Symbology)
    (session : SessionId) (msg : FieldMap D) where
  -- What every change of the cache keeps, a market data request keeps.
  pub market_data_request-keeps :
      (P : Cache F → Type 0)
      → ((q : MdRequest) (r : Order String) (symbol : String) (c c' : Cache F)
          → IsOrder r
          → P c
          → Changed env symbology session msg q r symbol c c'
          → P c')
      → (ranges : ℕ → Order String) (p : Peer F D) → AreOrders ranges
      → P p.cache
      → P (market_data_request_for ranges env symbology session msg p).1.cache
  unfolding market_data_request_for
  market_data_request-keeps P keep ranges p o v = elim (Result-cases (read_md_request msg)) [
    | inl (r, e) ↦ rw (e, market_data_request_for) v
    | inr (q, e) ↦
        rw (e, market_data_request_for)
          (rounds-keep env symbology session msg q P (keep q) ranges 0 q.symbols p o v)
  ]

  pub market_data_request-Runs :
      (ranges : ℕ → Order String) (p : Peer F D)
      → AreOrders ranges
      → IsReachable p.cache
      → IsReachable (market_data_request_for ranges env symbology session msg p).1.cache
  market_data_request-Runs = market_data_request-keeps IsReachable change
    where
      change :
          (q : MdRequest) (r : Order String) (symbol : String) (c c' : Cache F)
          → IsOrder r
          → IsReachable c
          → Changed env symbology session msg q r symbol c c'
          → IsReachable c'
      change q r symbol c c' o v (inl same) = subst IsReachable (sym same) v
      change q r symbol c c' o v (inr (unused, new, inl same)) =
          subst IsReachable (sym same) (goes_on v (maps_symbol c symbol q.md_req_id))
      change q r symbol c c' o v (inr (unused, new, inr (b, t, same))) =
          subst IsReachable (sym same)
            (goes_on (goes_on v (maps_symbol c symbol q.md_req_id)) (maps_ids _ q.md_req_id b t))

  pub orders-market_data_request :
      (ranges : ℕ → Order String) (p : Peer F D)
      → AreOrders ranges
      → p.cache.orders ≡ []
      → (market_data_request_for ranges env symbology session msg p).1.cache.orders ≡ []
  unfolding map_symbol_to_req_id map_md_req_ids
  orders-market_data_request = market_data_request-keeps (λ c. c.orders ≡ []) change
    where
      change :
          (q : MdRequest) (r : Order String) (symbol : String) (c c' : Cache F)
          → IsOrder r
          → c.orders ≡ []
          → Changed env symbology session msg q r symbol c c'
          → c'.orders ≡ []
      change q r symbol c c' o v (inl same) = ap (λ x. x.orders) same ∙ v
      change q r symbol c c' o v (inr (unused, new, inl same)) = ap (λ x. x.orders) same ∙ v
      change q r symbol c c' o v (inr (unused, new, inr (b, t, same))) = ap (λ x. x.orders) same ∙ v

module _ {F D : Type 0} ⦃fl : Floats F⦄ ⦃dc : Decimals F D⦄ where
  -- Every market data request keeps the bookkeeping of subscriptions valid: no two symbols are
  -- mapped to one request id, and each id with websocket ids is the id of a symbol.
  pub market_data_request-IsMdValid :
      (ranges : ℕ → Order String) (env : Env F D) (symbology : Symbology) (session : SessionId)
      (msg : FieldMap D) (p : Peer F D)
      → AreOrders ranges
      → IsMdValid p.cache
      → IsMdValid (market_data_request_for ranges env symbology session msg p).1.cache
  market_data_request-IsMdValid ranges env symbology session msg =
      market_data_request-keeps env symbology session msg IsMdValid
        (λ q. Changed-IsMdValid env symbology session msg q) ranges
