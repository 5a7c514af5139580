-- ===== src/Fix/SubscriptionRequestType.antt =====
-- The values of the field SubscriptionRequestType that the program names.
use bfxfixgw.Base.{String}

abbrev pub snapshot : String
snapshot = "0"

abbrev pub snapshot_plus_updates : String
snapshot_plus_updates = "1"

abbrev pub disable_previous_snapshot_plus_update_request : String
disable_previous_snapshot_plus_update_request = "2"
