-- ===== src/Fix/CxlRejReason.antt =====
-- The values of the field CxlRejReason that the program names.
use bfxfixgw.Base.{String}

abbrev pub unknown_order : String
unknown_order = "1"

abbrev pub other : String
other = "99"
