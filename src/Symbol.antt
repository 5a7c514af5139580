-- ===== src/Symbol.antt =====
-- service/symbol: the symbols of the counterparties and those of Bitfinex. The clients of this
-- component see the two functions of the interface; `none` is an error.
pub mod File
use bfxfixgw.Base.{String, Option, some}

-- symbol.go
pub record Symbology : Type 0 where
  -- symbol, then counterparty
  pub to_bitfinex : String → String → Option String
  pub from_bitfinex : String → String → Option String

-- passthrough.go
unfoldable pub new_passthrough_symbology : Symbology
new_passthrough_symbology = record {
  to_bitfinex = λ symbol counterparty. some symbol;
  from_bitfinex = λ symbol counterparty. some symbol;
}
