-- ===== src/Fix/ExecInst.antt =====
-- The values of the field ExecInst that the program names.
use bfxfixgw.Base.{String}

abbrev pub participant_dont_initiate : String
participant_dont_initiate = "6"

abbrev pub all_or_none : String
all_or_none = "G"

abbrev pub primary_peg : String
primary_peg = "R"
