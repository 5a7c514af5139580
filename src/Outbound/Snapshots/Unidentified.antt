-- ===== src/Outbound/Snapshots/Unidentified.antt =====
-- What an order snapshot does with the executions of an order that was not cached.
use Prim.Native.String.{◌++◌ as join}
use bfxfixgw.Base.{ℕ, String, ◌≡◌, refl, none, some, List, ◌∷◌}
use bfxfixgw.Base.Floats.{Floats, Decimals}
use bfxfixgw.Base.Int.{ℤ}
use bfxfixgw.Base.Maps.{Order as Visits, IsOrder, Distinct, find_first}
use bfxfixgw.Base.Text.Decimal.{format_int}
use bfxfixgw.Convert.Reports.{Order, TradeExecutionUpdate}
use bfxfixgw.Fix.{SessionId}
use bfxfixgw.Outbound.{failed_with}
use bfxfixgw.Outbound.Orders.{add_known_order}
use bfxfixgw.Outbound.Snapshots.{add_executions, finish_snapshot_order, fix_order_snapshot_handler}
use bfxfixgw.Peer.Cache.{Cache, add_order, add_execution, has_order_id, lookup_by_order_id}
use bfxfixgw.Peer.Cache.Unidentified.{lookup_by_order_id-HasNone, find_first-unidentified}
use bfxfixgw.Peer.Order.{CachedOrder, new_order}
use bfxfixgw.Symbol.{Symbology}
use bfxfixgw.World.{Env, Peer, got, asked_trades}

module _ {F : Type 0} ⦃fl : Floats F⦄ where
  known_order_not_found :
      (r r' : Visits (CachedOrder F)) (z : ℤ) (o : Order F) (a : F) (user : String) (c : Cache F)
      → IsOrder r
      → IsOrder r'
      → Distinct c.orders
      → lookup_by_order_id r (format_int z) c ≡ none
      → find_first (has_order_id (format_int z)) (r' (add_known_order o a user c).orders) ≡ none
  unfolding add_known_order add_order new_order
  known_order_not_found r r' z o a user c v v' d missing =
      find_first-unidentified r' z _ _ c v' d
        (lookup_by_order_id-HasNone r (format_int z) c v d missing) refl

module _ {F D : Type 0} ⦃fl : Floats F⦄ ⦃dc : Decimals F D⦄ where
  -- If the first order of a snapshot has executions, and no cached order has the order id of the
  -- first of them, then the handler fails at that execution, since the order is added without its
  -- id. The executions of the first order are asked for, and nothing else is asked or sent.
  pub unknown_snapshot_fails :
      (env : Env F D) (symbology : Symbology) (session : SessionId)
      (ranges : ℕ → Visits (CachedOrder F)) (r : Visits (CachedOrder F)) (o : Order F)
      (rest : List (Order F)) (tu : TradeExecutionUpdate F) (trades : List (TradeExecutionUpdate F))
      (p : Peer F D)
      → ((i : ℕ) → IsOrder (ranges i))
      → IsOrder r
      → Distinct p.cache.orders
      → lookup_by_order_id r (format_int tu.order_id) p.cache ≡ none
      → env.order_trades p.log o.symbol o.id ≡ got (some (tu ∷ trades))
      → let (result, p') = fix_order_snapshot_handler env symbology session ranges (o ∷ rest) p in
        (result
          ≡ failed_with
              (join "could not find OrderID " (join (format_int tu.order_id) " in cache")))
        × (p'.log ≡ asked_trades o.symbol o.id ∷ p.log)
  unfolding fix_order_snapshot_handler finish_snapshot_order add_executions add_execution
  unknown_snapshot_fails env symbology session ranges r o rest tu trades p v v' d missing answers =
      let nothing =
        known_order_not_found r (ranges 0) tu.order_id o o.amount p.bfx_user_id p.cache v' (v 0) d
          missing in
      rw (answers, fix_order_snapshot_handler)
        (rw (nothing, finish_snapshot_order, add_executions, add_execution) (refl, refl))
