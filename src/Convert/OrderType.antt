-- ===== src/Convert/OrderType.antt =====
-- The order types of the Bitfinex API (constants of its client library).
use bfxfixgw.Base.{String}

abbrev pub market : String
market = "MARKET"

abbrev pub exchange_market : String
exchange_market = "EXCHANGE MARKET"

abbrev pub limit : String
limit = "LIMIT"

abbrev pub exchange_limit : String
exchange_limit = "EXCHANGE LIMIT"

abbrev pub stop : String
stop = "STOP"

abbrev pub exchange_stop : String
exchange_stop = "EXCHANGE STOP"

abbrev pub trailing_stop : String
trailing_stop = "TRAILING STOP"

abbrev pub exchange_trailing_stop : String
exchange_trailing_stop = "EXCHANGE TRAILING STOP"

abbrev pub fok : String
fok = "FOK"

abbrev pub exchange_fok : String
exchange_fok = "EXCHANGE FOK"

abbrev pub stop_limit : String
stop_limit = "STOP LIMIT"

abbrev pub exchange_stop_limit : String
exchange_stop_limit = "EXCHANGE STOP LIMIT"
