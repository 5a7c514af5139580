-- ===== src/Fix/ContingencyType.antt =====
-- The values of the field ContingencyType that the program names.
use bfxfixgw.Base.{String}

abbrev pub one_cancels_the_other : String
one_cancels_the_other = "1"
