-- ===== src/Fix/MdEntryType.antt =====
-- The values of the field MDEntryType that the program names.
use bfxfixgw.Base.{String}

abbrev pub bid : String
bid = "0"

abbrev pub offer : String
offer = "1"

abbrev pub trade : String
trade = "2"

abbrev pub trading_session_high_price : String
trading_session_high_price = "7"

abbrev pub trading_session_low_price : String
trading_session_low_price = "8"

abbrev pub trade_volume : String
trade_volume = "B"
