-- ===== src/Fix/CashMargin.antt =====
-- The values of the field CashMargin that the program names.
use bfxfixgw.Base.{String}

abbrev pub margin_open : String
margin_open = "2"

abbrev pub margin_close : String
margin_close = "3"
