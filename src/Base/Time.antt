-- ===== src/Base/Time.antt =====
-- Go's time.Time and int64, as far as the program computes with them. A time is its distance from
-- the start of 1970 in nanoseconds.
use bfxfixgw.Base.Tests.{ltb, if◌then◌else◌}
use bfxfixgw.Base.Int.{ℤ, pos, negsuc}
use Prim.Native.Nat.{ℕ, zero, suc, ◌-◌, ◌*◌, ◌/◌, ◌%◌, ◌^◌, ◌<◌}
use Prim.Native.String.{String}
use mathlib.Core.Bool.{false}
use text.Mathlib.Text.{◌==◌}
use mathlib.Core.Option.{Option, some}
use mathlib.Core.Path.{◌≡◌}

abbrev pub Time : Type 0
Time = ℤ

-- time.Time{}: the start of the year 1
abbrev pub zero_time : Time
zero_time = negsuc (62_135_596_800 * 10 ^ 9 - 1)

-- An integer as the 64 bits of an int64 hold it.
unfoldable pub wrap64 : ℤ → ℤ
wrap64 (pos n) =
    if ltb (n % 2 ^ 64) (2 ^ 63) then pos (n % 2 ^ 64) else negsuc (2 ^ 64 - 1 - n % 2 ^ 64)
wrap64 (negsuc n) =
    if ltb (n % 2 ^ 64) (2 ^ 63) then negsuc (n % 2 ^ 64) else pos (2 ^ 64 - 1 - n % 2 ^ 64)

negate : ℕ → ℤ
negate zero = pos 0
negate (suc n) = negsuc n

-- t.UnixNano() / 1000000: int64 division, which cuts towards zero
unfoldable pub unix_millis : Time → ℤ
unfolding wrap64 negate
unix_millis t = elim (wrap64 t) [
  | pos n ↦ pos (n / 1_000_000)
  | negsuc n ↦ negate (suc n / 1_000_000)
]

-- The layout "2006-01-02 15:04:05" of package time. A time written in it and read again has lost
-- what is below the second; the law is stated for the times from 1970 to the year 2262, which an
-- int64 of nanoseconds holds.
pub record TimeLayout : Type 0 where
  pub format : Time → String
  pub parse : String → Option Time
  pub not_empty : (t : Time) → (format t == "") ≡ false
  pub parse-format :
      (n : ℕ) → n < 2 ^ 63 → parse (format (pos n)) ≡ some (pos (n / 10 ^ 9 * 10 ^ 9))
