-- ===== src/Fix/Side.antt =====
-- The values of the field Side that the program names.
use bfxfixgw.Base.{String}

abbrev pub buy : String
buy = "1"

abbrev pub sell : String
sell = "2"

abbrev pub undisclosed : String
undisclosed = "7"
