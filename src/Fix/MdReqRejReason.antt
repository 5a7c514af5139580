-- ===== src/Fix/MdReqRejReason.antt =====
-- The values of the field MDReqRejReason that the program names.
use bfxfixgw.Base.{String}

abbrev pub unknown_symbol : String
unknown_symbol = "0"

abbrev pub duplicate_mdreqid : String
duplicate_mdreqid = "1"

abbrev pub unsupported_subscriptionrequesttype : String
unsupported_subscriptionrequesttype = "4"
