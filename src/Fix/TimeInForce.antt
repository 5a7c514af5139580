-- ===== src/Fix/TimeInForce.antt =====
-- The values of the field TimeInForce that the program names.
use bfxfixgw.Base.{String}

abbrev pub good_till_cancel : String
good_till_cancel = "1"

abbrev pub immediate_or_cancel : String
immediate_or_cancel = "3"

abbrev pub fill_or_kill : String
fill_or_kill = "4"

abbrev pub good_till_date : String
good_till_date = "6"
