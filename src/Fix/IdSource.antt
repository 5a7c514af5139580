-- ===== src/Fix/IdSource.antt =====
-- The values of the field IDSource that the program names.
use bfxfixgw.Base.{String}

abbrev pub exchange_symbol : String
exchange_symbol = "8"
