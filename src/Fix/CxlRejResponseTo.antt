-- ===== src/Fix/CxlRejResponseTo.antt =====
-- The values of the field CxlRejResponseTo that the program names.
use bfxfixgw.Base.{String}

abbrev pub order_cancel_request : String
order_cancel_request = "1"

abbrev pub order_cancel_replace_request : String
order_cancel_replace_request = "2"
