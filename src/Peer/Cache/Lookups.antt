-- ===== src/Peer/Cache/Lookups.antt =====
-- What the lookups of service/peer/cache.go find, and what executions change.
use bfxfixgw.Base.{
  String, ◌≡◌, ◌≢◌, refl, ap, false, none, some, ◌==◌, eq_iff, Option-cases, if◌then◌else◌, inl,
  inr, ◌⊎◌,
}
use bfxfixgw.Base.Floats.{Floats, magnitude}
use bfxfixgw.Base.Maps.{Order, IsOrder, lookup, lookup-assign, find_first, Every, Distinct}
use bfxfixgw.Base.Maps.Entries.{Every-map}
use bfxfixgw.Base.Maps.Orders.{found, not_found, find_first_deterministic}
use bfxfixgw.Peer.Order.{CachedOrder, append_execution, filled_qty, avg_fill_px}
use bfxfixgw.Peer.Cache.{
  Cache, has_order_id, value_of, key_of, lookup_by_order_id, lookup_cl_ord_id, add_execution,
}

module _ {F : Type 0} (c : Cache F) (d : Distinct c.orders) where
  -- At most one cached order has the id.
  abbrev pub IsUnique : String → Type 0
  IsUnique orderid =
      (k j : String) (o p : CachedOrder F)
      → lookup k c.orders ≡ some o
      → lookup j c.orders ≡ some p
      → o.order_id ≡ orderid
      → p.order_id ≡ orderid
      → k ≡ j

  -- LookupByOrderID, in whatever order Go ranges over the map: either it returns none, and no cached
  -- order has the id, or it returns an order that is cached and has the id.
  pub lookup_by_order_id_correct :
      (r : Order (CachedOrder F)) (orderid : String)
      → IsOrder r
      → ((lookup_by_order_id r orderid c ≡ none) × Every (λ e. e.1.order_id ≢ orderid) c.orders)
        ⊎ ((k : String) × (o : CachedOrder F) × (lookup_by_order_id r orderid c ≡ some o)
            × (lookup k c.orders ≡ some o)
            × (o.order_id ≡ orderid))
  unfolding lookup_by_order_id
  lookup_by_order_id_correct r orderid q =
      elim (Option-cases (find_first (has_order_id orderid) (r c.orders))) [
        | inl missing ↦ inl (
          ap value_of missing,
          Every-map (λ e. has_order_id orderid e ≡ false) (λ e. e.1.order_id ≢ orderid) c.orders
              (λ e h same. cc (h, (eq_iff e.1.order_id orderid).1 same))
              (not_found (has_order_id orderid) c.orders d r q missing),
        )
        | inr ((k, o), hit) ↦
            let (at, is) = found (has_order_id orderid) c.orders d r q k o hit in
            inr (k, o, ap value_of hit, at, (eq_iff o.order_id orderid).0 is)
      ]

  one_entry :
      (orderid : String) (r s : Order (CachedOrder F))
      → IsOrder r
      → IsOrder s
      → IsUnique orderid
      → find_first (has_order_id orderid) (r c.orders)
        ≡ find_first (has_order_id orderid) (s c.orders)
  one_entry orderid r s q t u =
      find_first_deterministic (has_order_id orderid) c.orders d r s q t λ k j o p at at' is is'.
        u k j o p at at' ((eq_iff o.order_id orderid).0 is) ((eq_iff p.order_id orderid).0 is')

  -- If at most one cached order has the id, then the order in which Go ranges over the map does not
  -- matter to what LookupByOrderID and LookupClOrdID return.
  pub lookups_deterministic :
      (orderid : String) (r s : Order (CachedOrder F))
      → IsOrder r
      → IsOrder s
      → IsUnique orderid
      → (lookup_by_order_id r orderid c ≡ lookup_by_order_id s orderid c)
        × (lookup_cl_ord_id r orderid c ≡ lookup_cl_ord_id s orderid c)
  unfolding lookup_by_order_id lookup_cl_ord_id
  lookups_deterministic orderid r s q t u =
      (ap value_of (one_entry orderid r s q t u), ap key_of (one_entry orderid r s q t u))

  module _ ⦃fl : Floats F⦄ where
    -- What AddExecution returns and leaves in the cache.
    abbrev pub Adds : Order (CachedOrder F) → (orderid execid : String) → (px qty : F) → Type 0
    Adds r orderid execid px qty =
        let (result, c') = add_execution r orderid execid px qty c in
        ((lookup_by_order_id r orderid c ≡ none) × (result ≡ none) × (c' ≡ c))
        ⊎ ((k : String) × (o : CachedOrder F) × (o' : CachedOrder F) × (lookup k c.orders ≡ some o)
            × (o.order_id ≡ orderid)
            × (o' ≡ append_execution execid px (magnitude qty) o)
            × (result ≡ some (filled_qty o', avg_fill_px o'))
            × ((j : String) → lookup j c'.orders ≡ (if k == j then some o' else lookup j c.orders)))

    -- In whatever order Go ranges over the orders, AddExecution fails exactly if it finds no order with the id, and then leaves the cache alone.
    -- Otherwise one order with the id gets the execution at the end of its executions, with the
    -- magnitude of the quantity; every other order is as before, and the two numbers returned are
    -- the filled quantity and the average price of the order as it is then cached.
    pub add_execution-Adds :
        (r : Order (CachedOrder F)) (orderid execid : String) (px qty : F)
        → IsOrder r
        → Adds r orderid execid px qty
    unfolding add_execution lookup_by_order_id
    add_execution-Adds r orderid execid px qty q =
        elim (Option-cases (find_first (has_order_id orderid) (r c.orders))) [
          | inl missing ↦ inl (rw missing, rw (missing, add_execution), rw (missing, add_execution))
          | inr ((k, o), hit) ↦
              let (at, is) = found (has_order_id orderid) c.orders d r q k o hit in
              let o' = append_execution execid px (magnitude qty) o in
              inr (
                k,
                o,
                o',
                at,
                (eq_iff o.order_id orderid).0 is,
                refl,
                rw (hit, add_execution),
                λ j. rw (hit, add_execution) (lookup-assign k j o' c.orders),
              )
        ]
