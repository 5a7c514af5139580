-- ===== src/Peer/Order.antt =====
-- service/peer/cache.go: one cached order and its executions.
use bfxfixgw.Base.{ℕ, String, Bool, List, [], ◌∷◌, ◌++◌, if◌then◌else◌}
use bfxfixgw.Base.Floats.{Floats}
use bfxfixgw.Base.Int.{ℤ}

pub record Execution (F : Type 0) : Type 0 where
  pub bfx_execution_id : String
  pub px : F
  pub qty : F

pub record CachedOrder (F : Type 0) : Type 0 where
  pub symbol : String
  pub account : String
  pub cl_ord_id : String
  pub order_id : String
  pub px : F
  pub stop : F
  pub trail : F
  pub qty : F
  pub executions : List (Execution F)
  pub side : String
  pub order_type : String
  pub is_margin : Bool
  pub time_in_force : String
  pub tif_expiration : ℤ
  pub flags : ℕ

module _ {F : Type 0} where
  unfoldable pub new_order :
      String
      → (px stop trail qty : F) → (symbol account side ord_type : String) → Bool
      → (tif : String) → ℤ
      → ℕ
      → CachedOrder F
  new_order clordid px stop trail qty symbol account side ord_type is_margin tif exp flags =
      record {
        symbol = symbol;
        account = account;
        cl_ord_id = clordid;
        order_id = "";
        px = px;
        stop = stop;
        trail = trail;
        qty = qty;
        executions = [];
        side = side;
        order_type = ord_type;
        is_margin = is_margin;
        time_in_force = tif;
        tif_expiration = exp;
        flags = flags;
      }

module _ {F : Type 0} ⦃fl : Floats F⦄ where
  unfoldable pub filled_from : F → List (Execution F) → F
  filled_from qty [] = qty
  filled_from qty (e ∷ es) = filled_from (fl.add qty e.qty) es

  unfoldable pub filled_qty : CachedOrder F → F
  unfolding filled_from
  filled_qty o = filled_from fl.zero o.executions

  -- The loop of avgFillPx, with `tot` and `qty`.
  unfoldable pub totals_from : F → F → List (Execution F) → F × F
  totals_from tot qty [] = (tot, qty)
  totals_from tot qty (e ∷ es) = totals_from (fl.add tot (fl.mul e.px e.qty)) (fl.add qty e.qty) es

  unfoldable pub avg_fill_px : CachedOrder F → F
  unfolding totals_from
  avg_fill_px o =
      let (tot, qty) = totals_from fl.zero fl.zero o.executions in
      if fl.lt fl.zero qty then fl.div tot qty else fl.zero

  unfoldable pub stats : CachedOrder F → String × F × F × F
  unfolding filled_qty avg_fill_px
  stats o = (o.cl_ord_id, o.qty, filled_qty o, avg_fill_px o)

  -- o.Executions = append(o.Executions, …)
  unfoldable pub append_execution : (execid : String) (px qty : F) → CachedOrder F → CachedOrder F
  append_execution execid px qty o = record o {
    executions = o.executions ++ record { bfx_execution_id = execid; px = px; qty = qty } ∷ [];
  }
