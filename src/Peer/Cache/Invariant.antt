-- ===== src/Peer/Cache/Invariant.antt =====
-- What holds of every cache that the methods of service/peer/cache.go can build.
use bfxfixgw.Base.{
  ℕ, String, ◌≡◌, refl, Bool, false, List, [], ◌∷◌, ◌++◌, Option-cases, Bool-cases, inl, inr,
}
use bfxfixgw.Base.Floats.{Floats, magnitude}
use bfxfixgw.Base.Int.{ℤ}
use bfxfixgw.Base.Maps.{Order, IsOrder, lookup, assign, find_first, Every, Distinct}
use bfxfixgw.Base.Maps.Entries.{Every-lookup, Every-assign, Distinct-assign}
use bfxfixgw.Base.Maps.Orders.{found}
use bfxfixgw.Peer.Order.{CachedOrder, Execution, append_execution, new_order}
use bfxfixgw.Peer.Cache.{
  Cache, new_cache, has_order_id, add_order, update_order, add_cancel, map_symbol_to_req_id,
  map_md_req_ids, add_execution,
}

module _ {F : Type 0} ⦃fl : Floats F⦄ where
  abbrev pub AllFilled : List (Execution F) → Type 0
  AllFilled [] = Unit
  AllFilled (e ∷ es) = (fl.lt e.qty fl.zero ≡ false) × AllFilled es

  -- An entry is filed under its own ClOrdID, and no quantity in it is negative.
  pub record IsValidEntry (e : String × CachedOrder F) : Type 0 where
    pub keyed : e.1.cl_ord_id ≡ e.0
    pub amount : fl.lt e.1.qty fl.zero ≡ false
    pub fills : AllFilled e.1.executions

  pub record IsValid (c : Cache F) : Type 0 where
    pub entries : Every IsValidEntry c.orders
    pub orders : Distinct c.orders
    pub cancels : Distinct c.cancels
    pub md_req_ids : Distinct c.md_req_ids
    pub symbols : Distinct c.symbol_to_req_id

  pub magnitude_nonneg : (x : F) → fl.lt (magnitude x) fl.zero ≡ false
  unfolding magnitude
  magnitude_nonneg x = elim (Bool-cases (fl.lt x fl.zero)) [
    | inl below ↦ rw below (fl.lt_asymm fl.zero (fl.neg x) (fl.neg_of_negative x below))
    | inr above ↦ rw above above
  ]

  AllFilled-append :
      (es : List (Execution F)) (e : Execution F)
      → AllFilled es
      → fl.lt e.qty fl.zero ≡ false
      → AllFilled (es ++ e ∷ [])
  AllFilled-append [] e h p = (p, tt)
  AllFilled-append (x ∷ es) e h p = (h.0, AllFilled-append es e h.1 p)

  pub new_cache-IsValid : IsValid new_cache
  new_cache-IsValid = record {
    entries = tt;
    orders = tt;
    cancels = tt;
    md_req_ids = tt;
    symbols = tt;
  }

  assign_order-IsValid :
      (c : Cache F) (k : String) (o : CachedOrder F)
      → IsValid c
      → IsValidEntry (k, o)
      → IsValid (record c { orders = assign k o c.orders })
  assign_order-IsValid c k o v e = record {
    entries = Every-assign IsValidEntry k o c.orders v.entries e;
    orders = Distinct-assign k o c.orders v.orders;
    cancels = v.cancels;
    md_req_ids = v.md_req_ids;
    symbols = v.symbols;
  }

  module _ (c : Cache F) (v : IsValid c) where
    pub add_order-IsValid :
        (clordid : String) (px stop trail qty : F) (symbol account side ord_type : String)
        (is_margin : Bool) (tif : String) (exp : ℤ) (flags : ℕ)
        → IsValid
            (add_order clordid px stop trail qty symbol account side ord_type is_margin tif exp
              flags c).1
    unfolding add_order
    add_order-IsValid clordid px stop trail qty symbol account side ord_type is_margin tif exp
          flags =
        assign_order-IsValid c clordid
          (new_order clordid px stop trail (magnitude qty) symbol account side ord_type is_margin
            tif exp flags)
          v (record { keyed = refl; amount = magnitude_nonneg qty; fills = tt })

    pub update_order-IsValid :
        (clordid orderid : String) → IsValid (update_order clordid orderid c).1
    unfolding update_order
    update_order-IsValid clordid orderid = elim (Option-cases (lookup clordid c.orders)) [
      | inl missing ↦ rw (missing, update_order) v
      | inr (o, hit) ↦
          let e = Every-lookup IsValidEntry c.orders clordid o v.entries hit in
          rw (hit, update_order)
            (assign_order-IsValid c clordid (record o { order_id = orderid }) v
              (record { keyed = e.keyed; amount = e.amount; fills = e.fills }))
    ]

    pub add_cancel-IsValid :
        (origclordid symbol account clordid : String)
        → IsValid (add_cancel origclordid symbol account clordid c).1
    unfolding add_cancel
    add_cancel-IsValid origclordid symbol account clordid = record {
      entries = v.entries;
      orders = v.orders;
      cancels = Distinct-assign clordid _ c.cancels v.cancels;
      md_req_ids = v.md_req_ids;
      symbols = v.symbols;
    }

    pub map_symbol_to_req_id-IsValid :
        (symbol md_req_id : String) → IsValid (map_symbol_to_req_id symbol md_req_id c)
    unfolding map_symbol_to_req_id
    map_symbol_to_req_id-IsValid symbol md_req_id = record {
      entries = v.entries;
      orders = v.orders;
      cancels = v.cancels;
      md_req_ids = v.md_req_ids;
      symbols = Distinct-assign symbol md_req_id c.symbol_to_req_id v.symbols;
    }

    pub map_md_req_ids-IsValid :
        (fix_req_id book_req_id trade_req_id : String)
        → IsValid (map_md_req_ids fix_req_id book_req_id trade_req_id c)
    unfolding map_md_req_ids
    map_md_req_ids-IsValid fix_req_id book_req_id trade_req_id = record {
      entries = v.entries;
      orders = v.orders;
      cancels = v.cancels;
      md_req_ids = Distinct-assign fix_req_id _ c.md_req_ids v.md_req_ids;
      symbols = v.symbols;
    }

    pub add_execution-IsValid :
        (r : Order (CachedOrder F)) (orderid execid : String) (px qty : F)
        → IsOrder r
        → IsValid (add_execution r orderid execid px qty c).1
    unfolding add_execution
    add_execution-IsValid r orderid execid px qty o =
        elim (Option-cases (find_first (has_order_id orderid) (r c.orders))) [
          | inl missing ↦ rw (missing, add_execution) v
          | inr ((k, old), hit) ↦
              let at = found (has_order_id orderid) c.orders v.orders r o k old hit in
              let e = Every-lookup IsValidEntry c.orders k old v.entries at.0 in
              rw (hit, add_execution)
                (assign_order-IsValid c k (append_execution execid px (magnitude qty) old) v (
                  unfold append_execution in
                  record {
                    keyed = e.keyed;
                    amount = e.amount;
                    fills = AllFilled-append old.executions _ e.fills (magnitude_nonneg qty);
                  }))
        ]
