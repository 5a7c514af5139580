-- ===== src/Fix/CommType.antt =====
-- The values of the field CommType that the program names.
use bfxfixgw.Base.{String}

abbrev pub absolute : String
absolute = "3"
