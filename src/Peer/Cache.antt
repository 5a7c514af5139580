-- ===== src/Peer/Cache.antt =====
-- service/peer/cache.go: the orders, cancels and market data requests of one session. A Go method
-- that mutates the cache returns the new cache; where it ranges over a map it takes the order of
-- that `range`. The locks are not modelled: each method holds the lock from start to end.
pub mod Invariant
pub mod Lookups
pub mod Runs
pub mod Evolves
pub mod Unidentified
use bfxfixgw.Base.{ℕ, String, Bool, true, false, ◌||◌, Option, none, some, List, [], ◌==◌}
use mathlib.Core.Option
use bfxfixgw.Base.Floats.{Floats, magnitude}
use bfxfixgw.Base.Int.{ℤ}
use bfxfixgw.Peer.Order.{CachedOrder, new_order, filled_qty, avg_fill_px, append_execution}
use bfxfixgw.Base.Maps.{Order, lookup, assign, find_first}

pub record CachedCancel : Type 0 where
  pub original_order_id : String
  pub symbol : String
  pub account : String
  pub cl_ord_id : String

abbrev pub value_of : {V : Type 0} → Option (String × V) → Option V
value_of none = none
value_of (some (k, v)) = some v

abbrev pub key_of : {V : Type 0} → Option (String × V) → Option String
key_of none = none
key_of (some (k, v)) = some k

abbrev pub is_some : {A : Type 0} → Option A → Bool
is_some none = false
is_some (some a) = true

-- The websocket request ids of one FIX market data request.
pub record Ids : Type 0 where
  pub market_data_id : String
  pub trade_id : String

pub record Cache (F : Type 0) : Type 0 where
  pub orders : List (String × CachedOrder F)
  pub cancels : List (String × CachedCancel)
  pub md_req_ids : List (String × Ids)
  pub symbol_to_req_id : List (String × String)

unfoldable pub new_cancel : (origclordid symbol account clordid : String) → CachedCancel
new_cancel origclordid symbol account clordid = record {
  original_order_id = origclordid;
  symbol = symbol;
  account = account;
  cl_ord_id = clordid;
}

module _ {F : Type 0} where
  abbrev pub new_cache : Cache F
  new_cache = record { orders = []; cancels = []; md_req_ids = []; symbol_to_req_id = [] }

module _ {F : Type 0} ⦃fl : Floats F⦄ where
  -- AddOrder
  unfoldable pub add_order :
      String
      → (px stop trail qty : F) → (symbol account side ord_type : String) → Bool
      → (tif : String) → ℤ
      → ℕ
      → Cache F
      → CachedOrder F × Cache F
  unfolding new_order
  add_order clordid px stop trail qty symbol account side ord_type is_margin tif exp flags c =
      let order =
        new_order clordid px stop trail (magnitude qty) symbol account side ord_type is_margin tif
          exp flags in
      (order, record c { orders = assign clordid order c.orders })

module _ {F : Type 0} where
  -- UpdateOrder: the order in the map is the object that is changed and returned.
  unfoldable pub update_order :
      (clordid orderid : String) → Cache F → Option (CachedOrder F) × Cache F
  update_order clordid orderid c = elim (lookup clordid c.orders) [
    | none ↦ (none, c)
    | some order ↦
        let order' : CachedOrder F = record order { order_id = orderid } in
        (some order', record c { orders = assign clordid order' c.orders })
  ]

  -- AddCancel
  unfoldable pub add_cancel :
      (origclordid symbol account clordid : String) → Cache F → CachedCancel × Cache F
  unfolding new_cancel
  add_cancel origclordid symbol account clordid c =
      let cancel = new_cancel origclordid symbol account clordid in
      (cancel, record c { cancels = assign clordid cancel c.cancels })

  -- LookupCancel
  unfoldable pub lookup_cancel : String → Cache F → Option CachedCancel
  lookup_cancel clordid c = lookup clordid c.cancels

  -- LookupCancelByOrigClOrdID
  unfoldable pub lookup_cancel_by_orig_cl_ord_id :
      Order CachedCancel → String → Cache F → Option CachedCancel
  lookup_cancel_by_orig_cl_ord_id r origclordid c =
      value_of (find_first (λ e. e.1.original_order_id == origclordid) (r c.cancels))

  -- `order.OrderID == orderid`
  abbrev pub has_order_id : String → String × CachedOrder F → Bool
  has_order_id orderid e = e.1.order_id == orderid

  -- LookupByClOrdID
  unfoldable pub lookup_by_cl_ord_id : String → Cache F → Option (CachedOrder F)
  lookup_by_cl_ord_id clordid c = lookup clordid c.orders

  -- LookupByOrderID
  unfoldable pub lookup_by_order_id :
      Order (CachedOrder F) → String → Cache F → Option (CachedOrder F)
  lookup_by_order_id r orderid c = value_of (find_first (has_order_id orderid) (r c.orders))

  -- LookupClOrdID
  unfoldable pub lookup_cl_ord_id : Order (CachedOrder F) → String → Cache F → Option String
  lookup_cl_ord_id r orderid c = key_of (find_first (has_order_id orderid) (r c.orders))

  -- MapSymbolToReqID
  unfoldable pub map_symbol_to_req_id : (symbol md_req_id : String) → Cache F → Cache F
  map_symbol_to_req_id symbol md_req_id c = record c {
    symbol_to_req_id = assign symbol md_req_id c.symbol_to_req_id;
  }

  -- LookupMDReqID
  unfoldable pub lookup_md_req_id : String → Cache F → Option String
  lookup_md_req_id symbol c = lookup symbol c.symbol_to_req_id

  -- MDReqIDExists
  unfoldable pub md_req_id_exists : Order String → String → Cache F → Bool
  md_req_id_exists r md_req_id c =
      is_some (find_first (λ e. e.1 == md_req_id) (r c.symbol_to_req_id))

  -- MapMDReqIDs
  unfoldable pub map_md_req_ids : (fix_req_id book_req_id trade_req_id : String) → Cache F → Cache F
  map_md_req_ids fix_req_id book_req_id trade_req_id c =
      let ids : Ids = record { market_data_id = book_req_id; trade_id = trade_req_id } in
      record c { md_req_ids = assign fix_req_id ids c.md_req_ids }

  -- LookupAPIReqIDs
  unfoldable pub lookup_api_req_ids : String → Cache F → Option (String × String)
  lookup_api_req_ids fix_req_id c =
      Option.map (λ ids. (ids.market_data_id, ids.trade_id)) (lookup fix_req_id c.md_req_ids)

  -- ReverseLookupAPIReqIDs
  unfoldable pub reverse_lookup_api_req_ids : Order Ids → String → Cache F → Option String
  reverse_lookup_api_req_ids r bfx_req_id c = key_of (
      find_first (λ e. e.1.market_data_id == bfx_req_id || e.1.trade_id == bfx_req_id)
        (r c.md_req_ids))

module _ {F : Type 0} ⦃fl : Floats F⦄ where
  -- AddExecution: the filled quantity and the average price after the execution, or an error.
  unfoldable pub add_execution :
      Order (CachedOrder F)
      → (orderid execid : String) (px qty : F) → Cache F
      → Option (F × F) × Cache F
  unfolding append_execution filled_qty avg_fill_px
  add_execution r orderid execid px qty c = elim (find_first (has_order_id orderid) (r c.orders)) [
    | none ↦ (none, c)
    | some (k, o) ↦
        let o' = append_execution execid px (magnitude qty) o in
        (some (filled_qty o', avg_fill_px o'), record c { orders = assign k o' c.orders })
  ]
