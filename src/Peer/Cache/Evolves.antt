-- ===== src/Peer/Cache/Evolves.antt =====
-- What the handlers of order messages do to the cache of a session: they add orders, give them ids
-- and add executions to them.
use bfxfixgw.Base.{ℕ, String, Bool, ◌≡◌, refl, ◌∙◌, Option-cases, inl, inr}
use bfxfixgw.Base.Floats.{Floats}
use bfxfixgw.Base.Int.{ℤ}
use bfxfixgw.Base.Maps.{Order, IsOrder, lookup, find_first}
use bfxfixgw.Peer.Cache.{Cache, add_order, update_order, add_execution, has_order_id}
use bfxfixgw.Peer.Cache.Runs.{IsReachable, goes_on, adds_order, updates_order, adds_execution}
use bfxfixgw.Peer.Order.{CachedOrder}

pub data Evolves {F : Type 0} ⦃fl : Floats F⦄ (c : Cache F) : Cache F → Type 0 where
  unchanged : Evolves c c
  order_added :
      {c' : Cache F} (clordid : String) (px stop trail qty : F)
      (symbol account side ord_type : String) (is_margin : Bool) (tif : String) (exp : ℤ)
      (flags : ℕ)
      → Evolves c c'
      → Evolves c
          (add_order clordid px stop trail qty symbol account side ord_type is_margin tif exp flags
            c').1
  order_updated :
      {c' : Cache F} (clordid orderid : String)
      → Evolves c c'
      → Evolves c (update_order clordid orderid c').1
  execution_added :
      {c' : Cache F} (r : Order (CachedOrder F)) (orderid execid : String) (px qty : F)
      → IsOrder r
      → Evolves c c'
      → Evolves c (add_execution r orderid execid px qty c').1

module _ {F : Type 0} ⦃fl : Floats F⦄ where
  pub Evolves-IsReachable : {c c' : Cache F} → IsReachable c → Evolves c c' → IsReachable c'
  Evolves-IsReachable h unchanged = h
  Evolves-IsReachable h (order_added {c'} k px st trl q s a sd ty m tif e f v) =
      goes_on (Evolves-IsReachable h v) (adds_order c' k px st trl q s a sd ty m tif e f)
  Evolves-IsReachable h (order_updated {c'} k id v) =
      goes_on (Evolves-IsReachable h v) (updates_order c' k id)
  Evolves-IsReachable h (execution_added {c'} r id e px q o v) =
      goes_on (Evolves-IsReachable h v) (adds_execution c' r id e px q o)

  -- The two caches have the same market data requests.
  abbrev pub SameRequests : Cache F → Cache F → Type 0
  SameRequests c c' = (c'.md_req_ids ≡ c.md_req_ids) × (c'.symbol_to_req_id ≡ c.symbol_to_req_id)

  update_order-SameRequests : (k id : String) (c : Cache F) → SameRequests c (update_order k id c).1
  unfolding update_order
  update_order-SameRequests k id c = elim (Option-cases (lookup k c.orders)) [
    | inl missing ↦ rw (missing, update_order) (refl, refl)
    | inr (o, hit) ↦ rw (hit, update_order) (refl, refl)
  ]

  add_order-SameRequests :
      (k : String) (px stop trail qty : F) (symbol account side ord_type : String)
      (is_margin : Bool) (tif : String) (exp : ℤ) (flags : ℕ) (c : Cache F)
      → SameRequests c
          (add_order k px stop trail qty symbol account side ord_type is_margin tif exp flags c).1
  unfolding add_order
  add_order-SameRequests k px stop trail qty symbol account side ord_type is_margin tif exp flags
        c =
      (refl, refl)

  add_execution-SameRequests :
      (r : Order (CachedOrder F)) (id e : String) (px q : F) (c : Cache F)
      → SameRequests c (add_execution r id e px q c).1
  unfolding add_execution
  add_execution-SameRequests r id e px q c =
      elim (Option-cases (find_first (has_order_id id) (r c.orders))) [
        | inl missing ↦ rw (missing, add_execution) (refl, refl)
        | inr ((k, old), hit) ↦ rw (hit, add_execution) (refl, refl)
      ]

  pub Evolves-SameRequests : {c c' : Cache F} → Evolves c c' → SameRequests c c'
  Evolves-SameRequests unchanged = (refl, refl)
  Evolves-SameRequests (order_added {c'} k px st trl q s a sd ty m tif e f v) =
      let (p, i) = Evolves-SameRequests v in
      let (p', i') = add_order-SameRequests k px st trl q s a sd ty m tif e f c' in (p' ∙ p, i' ∙ i)
  Evolves-SameRequests (order_updated {c'} k id v) =
      let (p, i) = Evolves-SameRequests v in
      let (p', i') = update_order-SameRequests k id c' in (p' ∙ p, i' ∙ i)
  Evolves-SameRequests (execution_added {c'} r id e px q o v) =
      let (p, i) = Evolves-SameRequests v in
      let (p', i') = add_execution-SameRequests r id e px q c' in (p' ∙ p, i' ∙ i)
