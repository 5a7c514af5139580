-- ===== src/Fix/DisplayMethod.antt =====
-- The values of the field DisplayMethod that the program names.
use bfxfixgw.Base.{String}

abbrev pub undisclosed : String
undisclosed = "4"
