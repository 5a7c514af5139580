-- ===== src/Tests/Layout.antt =====
-- A concrete time layout: a mark for each second that has passed since the start of 1970.
use Prim.Native.Char.{char}
use Prim.Native.Nat.{ℕ, zero, suc, ◌*◌, ◌/◌, ◌^◌, ◌<◌}
use Prim.Native.String.{String, [], ◌∷◌}
use mathlib.Core.Path.{subst}
use bfxfixgw.Base.{arith, eq_iff, Bool-cases, inl, inr, ◌≡◌, refl, ap, false, Option, some, ◌==◌}
use bfxfixgw.Base.Int.{pos, negsuc}
use bfxfixgw.Base.Time.{Time, TimeLayout}

marks_of : ℕ → String
marks_of zero = []
marks_of (suc n) = char b'x' tt ∷ marks_of n

unfoldable pub count : String → ℕ
count [] = 0
count (c ∷ s) = suc (count s)

count-marks_of : (n : ℕ) → count (marks_of n) ≡ n
unfolding count marks_of
count-marks_of zero = refl
count-marks_of (suc n) = ap suc (count-marks_of n)

unfoldable pub write : Time → String
unfolding marks_of
write (pos n) = char b't' tt ∷ marks_of (n / 10 ^ 9)
write (negsuc n) = char b't' tt ∷ []

unfoldable pub read : String → Option Time
unfolding count
read [] = some (pos 0)
read (c ∷ s) = some (pos (count s * 10 ^ 9))

some_mark : (s : String) → 0 < count s → (s == "") ≡ false
unfolding count
some_mark s h = elim (Bool-cases (s == "")) [
  | inl same ↦ let none : 0 < 0 = subst (λ x. 0 < count x) ((eq_iff s "").0 same) h in ground arith
  | inr other ↦ other
]

pub write_not_empty : (t : Time) → (write t == "") ≡ false
unfolding write count
write_not_empty (pos n) = some_mark _ (omega arith)
write_not_empty (negsuc n) = refl

pub read-write : (n : ℕ) → n < 2 ^ 63 → read (write (pos n)) ≡ some (pos (n / 10 ^ 9 * 10 ^ 9))
unfolding write read
read-write n h = ap (λ k. some (pos (k * 10 ^ 9))) (count-marks_of (n / 10 ^ 9))

abbrev pub marks : TimeLayout
marks = record {
  format = write;
  parse = read;
  not_empty = write_not_empty;
  parse-format = read-write;
}
