-- ===== src/Inbound/Expiry.antt =====
-- The expiry of an order on its way to Bitfinex, into the cache and back to the client.
use bfxfixgw.Base.{ℕ, String, ◌*◌, ◌/◌, ◌^◌, ◌<◌, ◌≤◌, ◌≡◌, refl, ap, ◌∙◌, true, some, arith}
use bfxfixgw.Base.Int.{ℤ, pos, ◌*ℤ◌}
use bfxfixgw.Base.Time.{TimeLayout, unix_millis, wrap64}
use bfxfixgw.Convert.FromFix.{get_time_in_force_from_fix}
use bfxfixgw.Convert.ToFix.{mts_to_time, time_in_force_to_fix}
use bfxfixgw.Fix.{FieldMap, ok}
use bfxfixgw.Fix.Tag
use bfxfixgw.Fix.TimeInForce
use bfxfixgw.Inbound.Orders.{gen_mts_tif}

wrap64_small : (n : ℕ) → n < 2 ^ 63 → wrap64 (pos n) ≡ pos n
unfolding wrap64
wrap64_small n h = ground arith

to_seconds : ℕ → ℕ
to_seconds n = n / 10 ^ 9 * 10 ^ 9

unix_millis_of_seconds :
    (n : ℕ) → n < 2 ^ 63 → unix_millis (pos (to_seconds n)) ≡ pos (n / 10 ^ 9 * 1000)
unfolding unix_millis to_seconds
unix_millis_of_seconds n h =
    rw (wrap64_small (n / 10 ^ 9 * 10 ^ 9) (omega arith), unix_millis) (ap pos (omega arith))

mts_to_time_small :
    (m : ℕ) → 0 < m → m * 1_000_000 < 2 ^ 63 → mts_to_time (pos m) ≡ (pos (m * 1_000_000), true)
unfolding mts_to_time ◌*ℤ◌ wrap64
mts_to_time_small m h b = ground arith

mts_to_time_of_seconds :
    (n : ℕ)
    → n < 2 ^ 63
    → 10 ^ 9 ≤ n
    → mts_to_time (pos (n / 10 ^ 9 * 1000)) ≡ (pos (to_seconds n), true)
unfolding to_seconds
mts_to_time_of_seconds n h b =
    mts_to_time_small (n / 10 ^ 9 * 1000) (omega arith) (omega arith)
    ∙ ap (λ m. (pos m, true)) (omega arith)

module _ {D : Type 0} (layout : TimeLayout) (msg : FieldMap D) where
  -- A good-till-date order with an expiry between a second past 1970 and the year 2262: the text
  -- that is sent to Bitfinex, read again for the cache, gives the milliseconds that reports show as
  -- a good-till-date order with the same expiry, but for what is below the second.
  pub expiry_reported :
      (n : ℕ) (ordtype : String)
      → n < 2 ^ 63
      → 10 ^ 9 ≤ n
      → msg.has Tag.time_in_force ≡ true
      → msg.get_string Tag.time_in_force ≡ ok TimeInForce.good_till_date
      → msg.get_time Tag.expire_time ≡ ok (pos n)
      → (tif : String) × (s : String) × (mts : ℤ) × (get_time_in_force_from_fix layout msg
          ≡ ok (tif, s))
        × (gen_mts_tif layout s ≡ some mts)
        × (time_in_force_to_fix ordtype mts
            ≡ (TimeInForce.good_till_date, pos (n / 10 ^ 9 * 10 ^ 9)))
  unfolding get_time_in_force_from_fix gen_mts_tif time_in_force_to_fix to_seconds
  expiry_reported n ordtype small late has gtd expiry =
      let s = layout.format (pos n) in
      (
        TimeInForce.good_till_cancel,
        s,
        pos (n / 10 ^ 9 * 1000),
        rw (has, gtd, expiry) refl,
        rw (layout.not_empty (pos n), layout.parse-format n small, unix_millis_of_seconds n small)
            refl,
        rw (mts_to_time_of_seconds n small late) refl,
      )
