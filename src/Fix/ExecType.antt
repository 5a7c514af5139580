-- ===== src/Fix/ExecType.antt =====
-- The values of the field ExecType that the program names.
use bfxfixgw.Base.{String}

abbrev pub new : String
new = "0"

abbrev pub partial_fill : String
partial_fill = "1"

abbrev pub fill : String
fill = "2"

abbrev pub canceled : String
canceled = "4"

abbrev pub pending_cancel : String
pending_cancel = "6"

abbrev pub rejected : String
rejected = "8"

abbrev pub trade : String
trade = "F"

abbrev pub order_status : String
order_status = "I"
