-- ===== src/Fix/OrdStatus.antt =====
-- The values of the field OrdStatus that the program names.
use bfxfixgw.Base.{String}

abbrev pub new : String
new = "0"

abbrev pub partially_filled : String
partially_filled = "1"

abbrev pub filled : String
filled = "2"

abbrev pub done_for_day : String
done_for_day = "3"

abbrev pub canceled : String
canceled = "4"

abbrev pub replaced : String
replaced = "5"

abbrev pub pending_cancel : String
pending_cancel = "6"

abbrev pub stopped : String
stopped = "7"

abbrev pub rejected : String
rejected = "8"

abbrev pub suspended : String
suspended = "9"

abbrev pub expired : String
expired = "C"
