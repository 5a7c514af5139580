-- ===== src/Fix/BusinessRejectReason.antt =====
-- The values of the field BusinessRejectReason that the program names.
use bfxfixgw.Base.{String}

abbrev pub unknown_security : String
unknown_security = "2"

abbrev pub other : String
other = "0"
