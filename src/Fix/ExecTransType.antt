-- ===== src/Fix/ExecTransType.antt =====
-- The values of the field ExecTransType that the program names.
use bfxfixgw.Base.{String}

abbrev pub status : String
status = "3"
