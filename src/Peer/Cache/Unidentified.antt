-- ===== src/Peer/Cache/Unidentified.antt =====
-- An order that has just been added is not found by an order id.
use bfxfixgw.Base.{String, false, ◌≡◌, none, some, Option-cases, Bool-cases, inl, inr, ◌==◌, eq_iff}
use bfxfixgw.Base.Int.{ℤ}
use bfxfixgw.Base.Maps.{Order, IsOrder, lookup, assign, lookup-assign, find_first, Every, Distinct}
use bfxfixgw.Base.Maps.Entries.{Every-lookup, Distinct-assign}
use bfxfixgw.Base.Maps.Orders.{found, not_found}
use bfxfixgw.Base.Text.Decimal.{format_int, format_int_not_empty}
use bfxfixgw.Peer.Cache.{Cache, has_order_id, lookup_by_order_id}
use bfxfixgw.Peer.Order.{CachedOrder}

module _ {F : Type 0} where
  -- No cached order has the order id.
  abbrev pub HasNone : String → Cache F → Type 0
  HasNone id c = Every (λ e. has_order_id id e ≡ false) c.orders

  pub lookup_by_order_id-HasNone :
      (r : Order (CachedOrder F)) (id : String) (c : Cache F)
      → IsOrder r
      → Distinct c.orders
      → lookup_by_order_id r id c ≡ none
      → HasNone id c
  unfolding lookup_by_order_id
  lookup_by_order_id-HasNone r id c o d h =
      elim (Option-cases (find_first (has_order_id id) (r c.orders))) [
        | inl nothing ↦ not_found (has_order_id id) c.orders d r o nothing
        | inr (e, hit) ↦ cc (rw hit at h)
      ]

  -- A search for the number of an order in a map where one entry has been assigned an order
  -- without an id.
  pub find_first-unidentified :
      (r : Order (CachedOrder F)) (z : ℤ) (k : String) (new : CachedOrder F) (c : Cache F)
      → IsOrder r
      → Distinct c.orders
      → HasNone (format_int z) c
      → new.order_id ≡ ""
      → find_first (has_order_id (format_int z)) (r (assign k new c.orders)) ≡ none
  find_first-unidentified r z k new c o d h empty =
      let test = has_order_id (format_int z) in
      let d' = Distinct-assign k new c.orders d in
      elim (Option-cases (find_first test (r (assign k new c.orders)))) [
        | inl nothing ↦ nothing
        | inr ((j, x), hit) ↦
            let (at, ok) = found test (assign k new c.orders) d' r o j x hit in
            elim (Bool-cases (k == j)) [
              | inl same ↦
                  let e : some new ≡ some x = rw (lookup-assign, same) at at in
                  let named : x.order_id ≡ format_int z = (eq_iff x.order_id (format_int z)).0 ok in
                  absurd (format_int_not_empty z (cc (e, named, empty)))
              | inr other ↦
                  let old : lookup j c.orders ≡ some x = rw (lookup-assign, other) at at in
                  let miss =
                    Every-lookup (λ e. has_order_id (format_int z) e ≡ false) c.orders j x h old in
                  absurd (cc (miss, ok))
            ]
      ]
