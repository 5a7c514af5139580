-- ===== src/Inbound/Orders.antt =====
-- service/fix/fix_msg.go: the orders that the requests of a client become, and their flags.
use Prim.Native.Nat.{bit_or}
use bfxfixgw.Base.{ℕ, String, Bool, Option, none, some, ◌==◌, if◌then◌else◌}
use bfxfixgw.Base.Floats.{Floats}
use bfxfixgw.Base.Int.{ℤ, pos}
use bfxfixgw.Base.Time.{TimeLayout, unix_millis}
use bfxfixgw.Convert.FromFix.{OrderNewRequest}
use bfxfixgw.Convert.Reports.{Order}
use bfxfixgw.Convert.ToFix.{flag_hidden, flag_post_only}
use bfxfixgw.World.{OrderUpdateRequest}

-- genFlags
unfoldable pub gen_flags : (hidden post_only : Bool) → ℕ
gen_flags hidden post_only =
    let flags : ℕ = if post_only then bit_or 0 flag_post_only else 0 in
    if hidden then bit_or flags flag_hidden else flags

-- genMTSTif: `none` is a panic
unfoldable pub gen_mts_tif : TimeLayout → String → Option ℤ
unfolding unix_millis
gen_mts_tif layout time_in_force =
    if time_in_force == ""
    then some (pos 0)
    else elim (layout.parse time_in_force) [ none ↦ none | some tif ↦ some (unix_millis tif) ]

module _ {F : Type 0} ⦃fl : Floats F⦄ where
  -- requestToOrder, after genMTSTif
  unfoldable pub request_to_order : OrderNewRequest F → ℤ → Order F
  unfolding gen_flags
  request_to_order o mts_tif = record {
    id = pos 0;
    gid = o.gid;
    cid = o.cid;
    symbol = o.symbol;
    amount = o.amount;
    type = o.type;
    mts_tif = mts_tif;
    flags = gen_flags o.hidden o.post_only;
    status = "";
    price = o.price;
    price_avg = fl.zero;
    price_trailing = o.price_trailing;
    price_aux_limit = o.price_aux_limit;
    hidden = o.hidden;
  }

  -- updateToOrder, after genMTSTif
  unfoldable pub update_to_order : OrderUpdateRequest F → ℤ → (type symbol : String) → ℤ → Order F
  unfolding gen_flags
  update_to_order o cid type symbol mts_tif = record {
    id = pos 0;
    gid = o.gid;
    cid = cid;
    symbol = symbol;
    amount = o.amount;
    type = type;
    mts_tif = mts_tif;
    flags = gen_flags o.hidden o.post_only;
    status = "";
    price = o.price;
    price_avg = fl.zero;
    price_trailing = o.price_trailing;
    price_aux_limit = o.price_aux_limit;
    hidden = o.hidden;
  }
