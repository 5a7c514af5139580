-- ===== src/Symbol/File.antt =====
-- service/symbol/file.go: the symbology of a file with one `[counterparty]` section after another.
pub mod Inverse
pub mod Loading
use bfxfixgw.Base.{
  String, Bool, true, false, ◌&&◌, Option, none, some, List, [], ◌∷◌, ◌==◌, if◌then◌else◌,
}
use bfxfixgw.Base.Maps.{Order, lookup, assign, find_first}
use bfxfixgw.Base.Text.{has_prefix, ends_with_char, drop_first, drop_last, lower_eq}
use bfxfixgw.Base.Text.Split.{split}

pub record SymbolSet : Type 0 where
  pub symbols : List (String × String)
  pub passthrough : Bool

abbrev pub new_symbol_set : SymbolSet
new_symbol_set = record { symbols = []; passthrough = false }

-- `counterparty` is the section that the next line belongs to.
pub record FileSymbology : Type 0 where
  pub counterparty : String
  pub counterparties : List (String × SymbolSet)

abbrev pub new_file_symbology : FileSymbology
new_file_symbology = record { counterparty = ""; counterparties = [] }

-- symbols, ok := f.counterparties[…]; if !ok { symbols = newSymbolset() }
abbrev pub or_new : Option SymbolSet → SymbolSet
or_new none = new_symbol_set
or_new (some s) = s

-- The part of `parse` for a line with an equals sign.
unfoldable pub set_line : String → String → FileSymbology → FileSymbology
set_line l r f =
    let symbols = or_new (lookup f.counterparty f.counterparties) in
    let symbols' : SymbolSet =
      if lower_eq l "passthrough" && lower_eq r "true"
      then record symbols { passthrough = true }
      else record symbols { symbols = assign l r symbols.symbols } in
    record f { counterparties = assign f.counterparty symbols' f.counterparties }

abbrev pub parse_parts : List String → FileSymbology → FileSymbology
parse_parts (l ∷ r ∷ rest) f = set_line l r f
parse_parts _ f = f

-- `[` at the front and `]` at the end
unfoldable pub is_header : String → Bool
is_header line = has_prefix line "[" && ends_with_char line b']'

unfoldable pub parse : String → FileSymbology → FileSymbology
unfolding set_line is_header
parse line f =
    let f' : FileSymbology =
      if is_header line then record f { counterparty = drop_last (drop_first line) } else f in
    parse_parts (split b'=' line) f'

-- The loop of NewFileSymbology over the lines that the scanner reads.
unfoldable pub load : List String → FileSymbology → FileSymbology
load [] f = f
load (line ∷ lines) f = load lines (parse line f)

abbrev pub bfx_of : Option (String × String) → Option String
bfx_of none = none
bfx_of (some (bfx, cp)) = some bfx

-- The part of ToBitfinex for one counterparty
unfoldable pub to_bitfinex_in : Order String → SymbolSet → String → Option String
to_bitfinex_in r symset symbol =
    if symset.passthrough
    then some symbol
    else bfx_of (find_first (λ e. e.1 == symbol) (r symset.symbols))

-- The part of FromBitfinex for one counterparty
unfoldable pub from_bitfinex_in : SymbolSet → String → Option String
from_bitfinex_in symset symbol =
    if symset.passthrough then some symbol else lookup symbol symset.symbols

-- ToBitfinex, with the order in which it ranges over the symbols
unfoldable pub to_bitfinex : Order String → FileSymbology → String → String → Option String
to_bitfinex r f symbol counterparty = elim (lookup counterparty f.counterparties) [
  | none ↦ none
  | some symset ↦ to_bitfinex_in r symset symbol
]

-- FromBitfinex
unfoldable pub from_bitfinex : FileSymbology → String → String → Option String
from_bitfinex f symbol counterparty = elim (lookup counterparty f.counterparties) [
  | none ↦ none
  | some symset ↦ from_bitfinex_in symset symbol
]
