-- ===== src/Fix/SettlPriceType.antt =====
-- The values of the field SettlPriceType that the program names.
use bfxfixgw.Base.{String}

abbrev pub final : String
final = "1"
