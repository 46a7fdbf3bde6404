-- ===== src/Slave/Bms/Bits.antt =====
-- `areBitsParsable` and `parseBits` of src/kelo_bms_slave.cpp.
use kddv.Base.{ℕ, Bool, false, List}
use kddv.Text.{Text}

abbrev pub are_bits_parsable : Text → Bool
are_bits_parsable var_name = false

-- The body is empty: `vars` and `vals` keep their contents.
unfoldable pub parse_bits : ℕ → Text → List Text × List Text → List Text × List Text
parse_bits data_word var_name out = out
