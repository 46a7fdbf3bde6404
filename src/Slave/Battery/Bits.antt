-- ===== src/Slave/Battery/Bits.antt =====
-- `areBitsParsable` and `parseBits` of src/robile_battery_slave.cpp.
pub mod Flags
use kddv.Base.{ℕ, ◌/◌, ◌^◌, Bool, ◌||◌, bit_and, List, [], ◌∷◌, if◌then◌else◌}
use kddv.Text.{Text, text, str_eq, to_string}

abbrev pub are_bits_parsable : Text → Bool
are_bits_parsable var_name = str_eq var_name (text "error") || str_eq var_name (text "warning")

-- `std::to_string((data & mask) >> shift)`; the first flag of each word has no shift, which is 0.
unfoldable pub flag : ℕ → ℕ → ℕ → Text
flag data_word mask shift = to_string (bit_and data_word mask / 2 ^ shift)

abbrev pub error_names : List Text
error_names =
    text "Low Battery"
    ∷ text "Empty Frame"
    ∷ text "Wrong Frame"
    ∷ text "Wrong Charger"
    ∷ text "Overload CHG"
    ∷ text "Over current"
    ∷ text "Watchdog"
    ∷ []

abbrev pub warning_names : List Text
warning_names = text "Over current" ∷ text "Shutdown" ∷ []

unfoldable pub error_values : ℕ → List Text
error_values data_word =
    flag data_word 0x0001 0
    ∷ flag data_word 0x0002 1
    ∷ flag data_word 0x0004 2
    ∷ flag data_word 0x0008 3
    ∷ flag data_word 0x0010 4
    ∷ flag data_word 0x0020 5
    ∷ flag data_word 0x0040 6
    ∷ []

unfoldable pub warning_values : ℕ → List Text
warning_values data_word = flag data_word 0x0001 0 ∷ flag data_word 0x0002 1 ∷ []

-- The contents of `vars` and `vals` afterwards; both are cleared first.
unfoldable pub parse_bits : ℕ → Text → List Text × List Text → List Text × List Text
parse_bits data_word var_name out =
    if str_eq var_name (text "error")
    then (error_names, error_values data_word)
    else if str_eq var_name (text "warning")
    then (warning_names, warning_values data_word)
    else ([], [])
