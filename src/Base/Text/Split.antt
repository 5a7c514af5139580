-- ===== src/Base/Text/Split.antt =====
-- strings.Split at one character.
use Prim.Native.Char.{Char, code}
use Prim.Native.Nat.{ℕ}
use Prim.Native.String.{String, ◌++◌}
use mathlib.Core.Bool.{false, true}
use mathlib.Core.List.{List, [], ◌∷◌}
use mathlib.Core.Path.{◌≡◌, refl}
use text.Mathlib.TextLemmas.{nil-append, cons-append}
use bfxfixgw.Base.Tests.{nat_eq, if◌then◌else◌}

abbrev on_head : Char → List String → List String
on_head c [] = (String.◌∷◌ c String.[]) ∷ []
on_head c (s ∷ l) = (String.◌∷◌ c s) ∷ l

unfoldable pub split : ℕ → String → List String
split n String.[] = String.[] ∷ []
split n (String.◌∷◌ c s) =
    let rest = split n s in if nat_eq (code c) n then String.[] ∷ rest else on_head c rest

-- The character does not occur in the text.
abbrev pub Lacks : ℕ → String → Type 0
Lacks n String.[] = Unit
Lacks n (String.◌∷◌ c s) = (nat_eq (code c) n ≡ false) × Lacks n s

pub split-Lacks : (n : ℕ) (s : String) → Lacks n s → split n s ≡ s ∷ []
unfolding split
split-Lacks n String.[] h = refl
split-Lacks n (String.◌∷◌ c s) h = rw (h.0, split-Lacks n s h.1)

-- A text cut at the first of two parts in which the character does not occur.
pub split-append :
    (n : ℕ) (s : String) (c : Char) (t : String)
    → Lacks n s
    → nat_eq (code c) n ≡ true
    → Lacks n t
    → split n (s ++ String.◌∷◌ c t) ≡ s ∷ t ∷ []
unfolding split
split-append n String.[] c t h e k = rw (nil-append, e, split-Lacks n t k)
split-append n (String.◌∷◌ d s) c t h e k = rw (cons-append, h.0, split-append n s c t h.1 e k)

split_example : split b'=' "a=bc=" ≡ "a" ∷ "bc" ∷ "" ∷ []
unfolding split
split_example = refl
