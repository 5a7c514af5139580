-- ===== src/Base/Text.antt =====
-- Go's `strings` and `strconv`, as the program calls them. The texts that the program looks for
-- are ASCII.
pub mod Decimal
pub mod Split
use Prim.Native.Char.{Char, code}
use Prim.Native.Nat.{ℕ, ◌+◌, ◌<◌}
use Prim.Native.String.{String, [], ◌∷◌}
use mathlib.Core.Bool.{Bool, true, false, ◌&&◌, ◌||◌}
use mathlib.Core.Path.{◌≡◌, refl}
use bfxfixgw.Base.Tests.{leb, nat_eq, if◌then◌else◌}

-- strings.HasPrefix
unfoldable pub has_prefix : String → String → Bool
has_prefix s [] = true
has_prefix [] (c ∷ p) = false
has_prefix (d ∷ s) (c ∷ p) = nat_eq (code d) (code c) && has_prefix s p

-- strings.Contains
unfoldable pub contains : String → String → Bool
unfolding has_prefix
contains [] p = has_prefix [] p
contains (c ∷ s) p = has_prefix (c ∷ s) p || contains s p

-- strings.HasSuffix with a text of one character
unfoldable pub ends_with_char : String → ℕ → Bool
ends_with_char [] n = false
ends_with_char (c ∷ []) n = nat_eq (code c) n
ends_with_char (c ∷ d ∷ s) n = ends_with_char (d ∷ s) n

-- s[1:] and s[:len(s)-1], where the character left out is of one byte
unfoldable pub drop_first : String → String
drop_first [] = []
drop_first (c ∷ s) = s

unfoldable pub drop_last : String → String
drop_last [] = []
drop_last (c ∷ []) = []
drop_last (c ∷ d ∷ s) = c ∷ drop_last (d ∷ s)

lower : ℕ → ℕ
lower c = if leb b'A' c && leb c b'Z' then c + 32 else c

-- strings.ToLower(s) == t, for a text `t` of lower case ASCII letters with no `i` and no `k`: no
-- character outside ASCII has another letter as its lower case.
unfoldable pub lower_eq : String → String → Bool
unfolding lower
lower_eq [] [] = true
lower_eq (c ∷ s) (d ∷ t) = nat_eq (lower (code c)) (code d) && lower_eq s t
lower_eq _ _ = false

-- strings.Replace(s, old, new, 1): the first occurrence
unfoldable pub drop_chars : String → String → String
drop_chars s [] = s
drop_chars [] (c ∷ p) = []
drop_chars (d ∷ s) (c ∷ p) = drop_chars s p

join : String → String → String
join [] t = t
join (c ∷ s) t = c ∷ join s t

unfoldable pub replace_first : (s old new : String) → String
unfolding has_prefix drop_chars join
replace_first [] old new = if has_prefix [] old then new else []
replace_first (c ∷ s) old new =
    if has_prefix (c ∷ s) old
    then join new (drop_chars (c ∷ s) old)
    else c ∷ replace_first s old new

replace_example : replace_first "MARGIN STOP MARGIN" "MARGIN" "EXCHANGE" ≡ "EXCHANGE STOP MARGIN"
unfolding replace_first
replace_example = refl
