-- ===== src/Inbound/MarketData/Valid.antt =====
-- What holds of the market data requests of a session, and what follows for its clients.
use bfxfixgw.Base.{
  String, ◌≡◌, ◌≢◌, refl, ap, sym, true, false, none, some, List, [], ◌∷◌, arith, ◌==◌, eq_iff,
  Bool-cases, Option-cases, inl, inr,
}
use bfxfixgw.Base.Maps.{Order, IsOrder, lookup, assign, lookup-assign, find_first, Every, Distinct}
use bfxfixgw.Base.Maps.Entries.{Every-assign, Every-map, Distinct-assign}
use bfxfixgw.Base.Maps.Orders.{not_found, finds}
use bfxfixgw.Inbound.MarketData.Rounds.{}
use bfxfixgw.Peer.Cache.{Cache, is_some, map_symbol_to_req_id, md_req_id_exists, map_md_req_ids}

-- No value twice.
abbrev pub DistinctValues : List (String × String) → Type 0
DistinctValues [] = Unit
DistinctValues ((k, v) ∷ m) = Every (λ e. e.1 ≢ v) m × DistinctValues m

-- A request id that the cache has websocket ids for is the id that some symbol is mapped to, and no
-- two symbols have one id.
pub record IsMdValid {F : Type 0} (c : Cache F) : Type 0 where
  pub symbols : Distinct c.symbol_to_req_id
  pub one_symbol : DistinctValues c.symbol_to_req_id
  pub tracked : Every (λ e. (s : String) × (lookup s c.symbol_to_req_id ≡ some e.0)) c.md_req_ids

DistinctValues-assign :
    (k v : String) (m : List (String × String))
    → lookup k m ≡ none
    → Every (λ e. e.1 ≢ v) m
    → DistinctValues m
    → DistinctValues (assign k v m)
unfolding lookup assign
DistinctValues-assign k v [] h e d = (tt, tt)
DistinctValues-assign k v ((j, w) ∷ m) h e d = elim (Bool-cases (j == k)) [
  | inl same ↦ cc (rw same at h)
  | inr other ↦ rw other (
    Every-assign (λ x. x.1 ≢ w) k v m d.0 (λ p. e.0 (sym p)),
    DistinctValues-assign k v m (rw other at h) e.1 d.1,
  )
]

module _ {F : Type 0} where
  md_req_id_unused :
      (r : Order String) (id : String) (c : Cache F)
      → IsOrder r
      → Distinct c.symbol_to_req_id
      → md_req_id_exists r id c ≡ false
      → Every (λ e. e.1 ≢ id) c.symbol_to_req_id
  unfolding md_req_id_exists
  md_req_id_unused r id c o d h =
      elim (Option-cases (find_first (λ e. e.1 == id) (r c.symbol_to_req_id))) [
        | inl missing ↦
            Every-map (λ e. (e.1 == id) ≡ false) (λ e. e.1 ≢ id) c.symbol_to_req_id
              (λ e f same. cc (f, (eq_iff e.1 id).1 same))
              (not_found (λ e. e.1 == id) c.symbol_to_req_id d r o missing)
        | inr (e, hit) ↦ cc (rw hit at h)
      ]

  -- An id that a symbol is mapped to is found.
  pub md_req_id_used :
      (r : Order String) (id s : String) (c : Cache F)
      → IsOrder r
      → Distinct c.symbol_to_req_id
      → lookup s c.symbol_to_req_id ≡ some id
      → md_req_id_exists r id c ≡ true
  unfolding md_req_id_exists
  md_req_id_used r id s c o d h =
      let (e, hit) =
        finds (λ e. e.1 == id) c.symbol_to_req_id d r o s id h ((eq_iff id id).1 refl) in
      ap is_some hit

  pub map_symbol-IsMdValid :
      (r : Order String) (symbol id : String) (c : Cache F)
      → IsOrder r
      → IsMdValid c
      → md_req_id_exists r id c ≡ false
      → lookup symbol c.symbol_to_req_id ≡ none
      → IsMdValid (map_symbol_to_req_id symbol id c)
  unfolding map_symbol_to_req_id
  map_symbol-IsMdValid r symbol id c o v unused new = record {
    symbols = Distinct-assign symbol id c.symbol_to_req_id v.symbols;
    one_symbol =
        DistinctValues-assign symbol id c.symbol_to_req_id new
          (md_req_id_unused r id c o v.symbols unused) v.one_symbol;
    tracked =
        Every-map (λ e. (s : String) × (lookup s c.symbol_to_req_id ≡ some e.0))
          (λ e. (s : String) × (lookup s (assign symbol id c.symbol_to_req_id) ≡ some e.0))
          c.md_req_ids
          (λ e (s, at).
            (s, ground (arith, lookup-assign symbol s id c.symbol_to_req_id, eq_iff symbol s)))
          v.tracked;
  }

  pub map_ids-IsMdValid :
      (symbol id book_req_id trade_req_id : String) (c : Cache F)
      → IsMdValid c
      → lookup symbol c.symbol_to_req_id ≡ some id
      → IsMdValid (map_md_req_ids id book_req_id trade_req_id c)
  unfolding map_md_req_ids
  map_ids-IsMdValid symbol id book_req_id trade_req_id c v at = record {
    symbols = v.symbols;
    one_symbol = v.one_symbol;
    tracked =
        Every-assign (λ e. (s : String) × (lookup s c.symbol_to_req_id ≡ some e.0)) id _
          c.md_req_ids v.tracked (symbol, at);
  }
