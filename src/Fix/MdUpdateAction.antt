-- ===== src/Fix/MdUpdateAction.antt =====
-- The values of the field MDUpdateAction that the program names.
use bfxfixgw.Base.{String}

abbrev pub new : String
new = "0"

abbrev pub delete : String
delete = "2"
