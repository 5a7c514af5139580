-- ===== src/Peer/Cache/Runs.antt =====
-- Any sequence of calls of the methods of service/peer/cache.go on one cache.
use bfxfixgw.Base.{ℕ, String, Bool}
use bfxfixgw.Base.Floats.{Floats}
use bfxfixgw.Base.Int.{ℤ}
use bfxfixgw.Base.Maps.{Order, IsOrder}
use bfxfixgw.Peer.Cache.{
  Cache, new_cache, add_order, update_order, add_cancel, map_symbol_to_req_id, map_md_req_ids,
  add_execution,
}
use bfxfixgw.Peer.Cache.Invariant.{
  IsValid, new_cache-IsValid, add_order-IsValid, update_order-IsValid, add_cancel-IsValid,
  map_symbol_to_req_id-IsValid, map_md_req_ids-IsValid, add_execution-IsValid,
}
use bfxfixgw.Peer.Order.{CachedOrder}

-- A step of the cache by one of the methods that change it.
pub data Steps {F : Type 0} ⦃fl : Floats F⦄ : Cache F → Cache F → Type 0 where
  adds_order :
      (c : Cache F) (clordid : String) (px stop trail qty : F)
      (symbol account side ord_type : String) (is_margin : Bool) (tif : String) (exp : ℤ)
      (flags : ℕ)
      → Steps c
          (add_order clordid px stop trail qty symbol account side ord_type is_margin tif exp flags
            c).1
  updates_order :
      (c : Cache F) (clordid orderid : String) → Steps c (update_order clordid orderid c).1
  adds_cancel :
      (c : Cache F) (origclordid symbol account clordid : String)
      → Steps c (add_cancel origclordid symbol account clordid c).1
  maps_symbol :
      (c : Cache F) (symbol md_req_id : String) → Steps c (map_symbol_to_req_id symbol md_req_id c)
  maps_ids :
      (c : Cache F) (fix_req_id book_req_id trade_req_id : String)
      → Steps c (map_md_req_ids fix_req_id book_req_id trade_req_id c)
  adds_execution :
      (c : Cache F) (r : Order (CachedOrder F)) (orderid execid : String) (px qty : F)
      → IsOrder r
      → Steps c (add_execution r orderid execid px qty c).1

-- What a new cache can become.
pub data IsReachable {F : Type 0} ⦃fl : Floats F⦄ : Cache F → Type 0 where
  starts : IsReachable new_cache
  goes_on : {c c' : Cache F} → IsReachable c → Steps c c' → IsReachable c'

module _ {F : Type 0} ⦃fl : Floats F⦄ where
  Steps-IsValid : {c c' : Cache F} → IsValid c → Steps c c' → IsValid c'
  Steps-IsValid v (adds_order c k px stop trail qty s a side ty m tif e f) =
      add_order-IsValid c v k px stop trail qty s a side ty m tif e f
  Steps-IsValid v (updates_order c k id) = update_order-IsValid c v k id
  Steps-IsValid v (adds_cancel c o s a k) = add_cancel-IsValid c v o s a k
  Steps-IsValid v (maps_symbol c s id) = map_symbol_to_req_id-IsValid c v s id
  Steps-IsValid v (maps_ids c id b t) = map_md_req_ids-IsValid c v id b t
  Steps-IsValid v (adds_execution c r id e px qty o) = add_execution-IsValid c v r id e px qty o

  -- In every cache that its methods can build from a new one, each order is filed under its own
  -- ClOrdID, no quantity of an order or an execution is negative, and no key is there twice.
  pub reachable-IsValid : {c : Cache F} → IsReachable c → IsValid c
  reachable-IsValid starts = new_cache-IsValid
  reachable-IsValid (goes_on h s) = Steps-IsValid (reachable-IsValid h) s
