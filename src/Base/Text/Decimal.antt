-- ===== src/Base/Text/Decimal.antt =====
-- strconv.ParseInt and strconv.FormatInt in base 10, for int64.
use Prim.Native.Char.{Char, char, code}
use Prim.Native.Nat.{ℕ, zero, suc, ◌+◌, ◌-◌, ◌*◌, ◌/◌, ◌%◌, ◌^◌}
use Prim.Native.String.{String, [], ◌∷◌}
use mathlib.Core.Bool.{Bool, ◌&&◌}
use mathlib.Core.Logic.{◌≢◌, inl, inr}
use mathlib.Core.Option.{Option, none, some}
use mathlib.Core.Path.{◌≡◌, refl, subst}
use bfxfixgw.Base.Int.{ℤ, pos, negsuc}
use bfxfixgw.Base.Tests.{Bool-cases, leb, ltb, nat_eq, if◌then◌else◌}

is_digit : Char → Bool
is_digit c = leb b'0' (code c) && leb (code c) b'9'

digits_from : ℕ → String → Option ℕ
digits_from n [] = some n
digits_from n (c ∷ s) =
    let rest = digits_from (n * 10 + (code c - b'0')) s in if is_digit c then rest else none

-- The digits after the sign: none at all is an error.
digits : String → Option ℕ
digits [] = none
digits (c ∷ s) = digits_from 0 (c ∷ s)

in_range : ℕ → (ℕ → ℤ) → Option ℕ → Option ℤ
in_range bound sign none = none
in_range bound sign (some n) = if leb n bound then some (sign n) else none

minus : ℕ → ℤ
minus zero = pos 0
minus (suc n) = negsuc n

-- strconv.ParseInt(s, 10, 64): `none` is an error
unfoldable pub parse_int : String → Option ℤ
unfolding digits digits_from is_digit in_range minus
parse_int [] = none
parse_int (c ∷ s) =
    if nat_eq (code c) b'-'
    then in_range (2 ^ 63) minus (digits s)
    else if nat_eq (code c) b'+'
    then in_range (2 ^ 63 - 1) pos (digits s)
    else in_range (2 ^ 63 - 1) pos (digits (c ∷ s))

digit : ℕ → Char
digit zero = char b'0' tt
digit (suc zero) = char b'1' tt
digit (suc (suc zero)) = char b'2' tt
digit (suc (suc (suc zero))) = char b'3' tt
digit (suc (suc (suc (suc zero)))) = char b'4' tt
digit (suc (suc (suc (suc (suc zero))))) = char b'5' tt
digit (suc (suc (suc (suc (suc (suc zero)))))) = char b'6' tt
digit (suc (suc (suc (suc (suc (suc (suc zero))))))) = char b'7' tt
digit (suc (suc (suc (suc (suc (suc (suc (suc zero)))))))) = char b'8' tt
digit _ = char b'9' tt

-- The digits of a number in front of a text. The fuel of 20 digits is enough below 10 ^ 20, and so
-- for every int64.
write_digits : ℕ → ℕ → String → String
write_digits zero n s = s
write_digits (suc fuel) n s =
    let rest = write_digits fuel (n / 10) (digit (n % 10) ∷ s) in
    if ltb n 10 then digit n ∷ s else rest

-- strconv.FormatInt(n, 10)
unfoldable pub format_int : ℤ → String
unfolding write_digits digit
format_int (pos n) = write_digits 20 n []
format_int (negsuc n) = char b'-' tt ∷ write_digits 20 (suc n) []

format_examples : format_int (negsuc 41) ≡ "-42"
unfolding format_int
format_examples = refl

parse_examples : parse_int "007" ≡ some (pos 7)
unfolding parse_int
parse_examples = refl

parse_bad : parse_int "order-1" ≡ none
unfolding parse_int
parse_bad = refl

abbrev IsMore : String → Type 0
IsMore [] = ⊥
IsMore (c ∷ s) = Unit

digits_before-IsMore : (fuel n : ℕ) (c : Char) (s : String) → IsMore (write_digits fuel n (c ∷ s))
unfolding write_digits
digits_before-IsMore zero n c s = tt
digits_before-IsMore (suc fuel) n c s = elim (Bool-cases (ltb n 10)) [
  | inl small ↦ rw (small, write_digits) tt
  | inr large ↦
      rw (large, write_digits) (digits_before-IsMore fuel (n / 10) (digit (n % 10)) (c ∷ s))
]

write_digits-IsMore : (fuel n : ℕ) → IsMore (write_digits (suc fuel) n [])
unfolding write_digits
write_digits-IsMore fuel n = elim (Bool-cases (ltb n 10)) [
  | inl small ↦ rw (small, write_digits) tt
  | inr large ↦ rw (large, write_digits) (digits_before-IsMore fuel (n / 10) (digit (n % 10)) [])
]

format_int-IsMore : (x : ℤ) → IsMore (format_int x)
unfolding format_int
format_int-IsMore (pos n) = write_digits-IsMore 19 n
format_int-IsMore (negsuc n) = tt

-- A number is never written as the empty text.
pub format_int_not_empty : (x : ℤ) → format_int x ≢ ""
format_int_not_empty x e = subst IsMore e (format_int-IsMore x)
