-- ===== src/Tests/Caches.antt =====
-- service/peer and service/fix/nostore.go at concrete inputs.
use bfxfixgw.Base.{
  String, ◌≡◌, ◌≢◌, ◌⊎◌, false, none, some, [], ◌∷◌, arith, eq_iff, ◌==◌, sym, ◌∙◌, Bool-cases, inl,
  inr,
}
use bfxfixgw.Base.Int.{ℤ, pos, negsuc}
use bfxfixgw.Base.Maps.{lookup, assign, Every}
use bfxfixgw.Peer.Cache.{
  Cache, new_cache, add_order, update_order, lookup_by_order_id, lookup_cl_ord_id,
}
use bfxfixgw.Peer.Cache.Invariant.{
  IsValid, new_cache-IsValid, add_order-IsValid, update_order-IsValid,
}
use bfxfixgw.Peer.Cache.Lookups.{
  IsUnique, lookup_by_order_id_correct, lookups_deterministic, Adds, add_execution-Adds,
}
use bfxfixgw.Peer.Cache.Runs.{
  IsReachable, starts, goes_on, adds_order, updates_order, reachable-IsValid,
}
use bfxfixgw.Peer.Nonce.{IsIncreasing, issued, init_nonce, nonces, nonces_increase}
use bfxfixgw.Peer.Order.{CachedOrder}
use bfxfixgw.Tests.Values.{int_floats, as_is, as_is-IsOrder}

abbrev one : Cache ℤ
one =
    (add_order "5" (pos 100) (pos 0) (pos 0) (negsuc 2) "tBTCUSD" "user" "2" "2" false "1" (pos 0) 0
      new_cache).1

abbrev acked : Cache ℤ
acked = (update_order "5" "7" one).1

one-IsValid : IsValid one
one-IsValid =
    add_order-IsValid new_cache new_cache-IsValid "5" (pos 100) (pos 0) (pos 0) (negsuc 2) "tBTCUSD"
      "user" "2" "2" false "1" (pos 0) 0

acked-IsValid : IsValid acked
acked-IsValid = update_order-IsValid one one-IsValid "5" "7"

lookup_by_order_id_correct_example :
    ((lookup_by_order_id as_is "7" acked ≡ none) × Every (λ e. e.1.order_id ≢ "7") acked.orders)
    ⊎ ((k : String) × (o : CachedOrder ℤ) × (lookup_by_order_id as_is "7" acked ≡ some o)
        × (lookup k acked.orders ≡ some o)
        × (o.order_id ≡ "7"))
lookup_by_order_id_correct_example =
    lookup_by_order_id_correct acked acked-IsValid.orders as_is "7" as_is-IsOrder

add_execution-Adds_example : Adds acked acked-IsValid.orders as_is "7" "e1" (pos 100) (negsuc 0)
add_execution-Adds_example =
    add_execution-Adds acked acked-IsValid.orders as_is "7" "e1" (pos 100) (negsuc 0) as_is-IsOrder

nonces_increase_example :
    IsIncreasing (issued (init_nonce 1000)) (nonces (1000 ∷ 1000 ∷ 1001 ∷ []) (init_nonce 1000))
nonces_increase_example = nonces_increase 1000 (1000 ∷ 1000 ∷ 1001 ∷ []) (omega arith) (omega arith)

acked-IsReachable : IsReachable acked
unfolding add_order update_order
acked-IsReachable =
    goes_on
      (goes_on starts (
        adds_order new_cache "5" (pos 100) (pos 0) (pos 0) (negsuc 2) "tBTCUSD" "user" "2" "2" false
          "1" (pos 0) 0))
      (updates_order one "5" "7")

reachable-IsValid_example : IsValid acked
reachable-IsValid_example = reachable-IsValid acked-IsReachable

acked_only : (k : String) (o : CachedOrder ℤ) → lookup k acked.orders ≡ some o → k ≡ "5"
unfolding lookup update_order assign add_order
acked_only k o at = elim (Bool-cases ("5" == k)) [
  | inl same ↦ sym ((eq_iff "5" k).0 same)
  | inr other ↦ cc (rw other at at)
]

acked-IsUnique : IsUnique acked acked-IsValid.orders "7"
acked-IsUnique k j o p at at' is is' = acked_only k o at ∙ sym (acked_only j p at')

lookups_deterministic_example :
    (lookup_by_order_id as_is "7" acked ≡ lookup_by_order_id as_is "7" acked)
    × (lookup_cl_ord_id as_is "7" acked ≡ lookup_cl_ord_id as_is "7" acked)
lookups_deterministic_example =
    lookups_deterministic acked acked-IsValid.orders "7" as_is as_is as_is-IsOrder as_is-IsOrder
      acked-IsUnique
