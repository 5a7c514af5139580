-- ===== src/Fix/OrdType.antt =====
-- The values of the field OrdType that the program names.
use bfxfixgw.Base.{String}

abbrev pub market : String
market = "1"

abbrev pub limit : String
limit = "2"

abbrev pub stop : String
stop = "3"

abbrev pub stop_limit : String
stop_limit = "4"
