-- ===== src/Tests/Symbols.antt =====
-- The symbology of a file with one section, at concrete symbols.
use bfxfixgw.Base.{String, ◌≡◌, refl, sym, eq_iff, Bool-cases, inl, inr, ◌==◌, false, some, [], ◌∷◌}
use bfxfixgw.Base.Maps.{lookup, find_first, assign}
use bfxfixgw.Base.Text.{contains, has_prefix, lower_eq, ends_with_char, drop_first, drop_last}
use bfxfixgw.Base.Text.Split.{split}
use bfxfixgw.Symbol.File.{
  FileSymbology, parse, is_header, to_bitfinex_in, from_bitfinex_in, load, new_file_symbology,
  to_bitfinex, from_bitfinex,
}
use bfxfixgw.Symbol.File.Inverse.{IsValid, from-to_bitfinex, to-from_bitfinex}
use bfxfixgw.Symbol.File.Loading.{load-IsValid}
use bfxfixgw.Tests.Values.{as_is, as_is-IsOrder}

abbrev two_symbols : FileSymbology
two_symbols = load ("[EXORG]" ∷ "tBTCUSD=BTC/USD" ∷ "tETHUSD=ETH/USD" ∷ []) new_file_symbology

two_symbols-IsValid : IsValid two_symbols
two_symbols-IsValid = load-IsValid ("[EXORG]" ∷ "tBTCUSD=BTC/USD" ∷ "tETHUSD=ETH/USD" ∷ [])

to_example : to_bitfinex as_is two_symbols "ETH/USD" "EXORG" ≡ some "tETHUSD"
unfolding to_bitfinex load lookup find_first parse assign contains has_prefix split lower_eq
    to_bitfinex_in is_header ends_with_char drop_first drop_last
to_example = refl

from-to_bitfinex_example : from_bitfinex two_symbols "tETHUSD" "EXORG" ≡ some "ETH/USD"
from-to_bitfinex_example =
    from-to_bitfinex two_symbols two_symbols-IsValid as_is as_is-IsOrder "ETH/USD" "tETHUSD" "EXORG"
      to_example

-- One symbol only, so that no other has its translation.
abbrev one_symbol : FileSymbology
one_symbol = record {
  counterparty = "EXORG";
  counterparties =
      ("EXORG", record { symbols = ("tBTCUSD", "BTC/USD") ∷ []; passthrough = false }) ∷ [];
}

one_symbol_only : (k : String) → from_bitfinex one_symbol k "EXORG" ≡ some "BTC/USD" → k ≡ "tBTCUSD"
unfolding from_bitfinex from_bitfinex_in lookup
one_symbol_only k h = elim (Bool-cases ("tBTCUSD" == k)) [
  | inl same ↦ sym ((eq_iff "tBTCUSD" k).0 same)
  | inr other ↦ cc (rw other at h)
]

from_example : from_bitfinex one_symbol "tBTCUSD" "EXORG" ≡ some "BTC/USD"
unfolding from_bitfinex from_bitfinex_in lookup
from_example = refl

to-from_bitfinex_example : to_bitfinex as_is one_symbol "BTC/USD" "EXORG" ≡ some "tBTCUSD"
unfolding lookup
to-from_bitfinex_example =
    to-from_bitfinex one_symbol ((refl, tt), tt) as_is as_is-IsOrder "tBTCUSD" "BTC/USD" "EXORG"
      one_symbol_only from_example
