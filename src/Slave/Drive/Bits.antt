-- ===== src/Slave/Drive/Bits.antt =====
-- `areBitsParsable` and `parseBits` of src/kelo_drive_slave.cpp, with the masks of
-- include/KeloDriveAPI.h.
pub mod Flags
use kddv.Base.{
  ℕ, ◌/◌, ◌*◌, ◌^◌, Bool, ◌||◌, bit_and, List, [], ◌∷◌, ◌++◌, ◌==◌, if◌then◌else◌, ◌≡◌, refl,
}
use kddv.Text.{Text, text, str_eq, to_string}

abbrev pub stat1_enabled1 : ℕ
stat1_enabled1 = 0x0001

abbrev pub stat1_enabled2 : ℕ
stat1_enabled2 = 0x0002

abbrev pub stat1_enc_1_ok : ℕ
stat1_enc_1_ok = 0x0004

abbrev pub stat1_enc_2_ok : ℕ
stat1_enc_2_ok = 0x0008

abbrev pub stat1_enc_pivot_ok : ℕ
stat1_enc_pivot_ok = 0x0010

abbrev pub stat1_undervoltage : ℕ
stat1_undervoltage = 0x0020

abbrev pub stat1_overvoltage : ℕ
stat1_overvoltage = 0x0040

abbrev pub stat1_overcurrent_1 : ℕ
stat1_overcurrent_1 = 0x0080

abbrev pub stat1_overcurrent_2 : ℕ
stat1_overcurrent_2 = 0x0100

abbrev pub stat1_overtemp_1 : ℕ
stat1_overtemp_1 = 0x0200

abbrev pub stat1_overtemp_2 : ℕ
stat1_overtemp_2 = 0x0400

abbrev pub stat1_enabled_grip : ℕ
stat1_enabled_grip = 0x0800

abbrev pub stat1_inpos_grip : ℕ
stat1_inpos_grip = 0x1000

abbrev pub stat1_overload_grip : ℕ
stat1_overload_grip = 0x2000

abbrev pub stat1_detect : ℕ
stat1_detect = 0x4000

abbrev pub com1_enable1 : ℕ
com1_enable1 = 0x0001

abbrev pub com1_enable2 : ℕ
com1_enable2 = 0x0002

abbrev pub com1_mode_torque : ℕ
com1_mode_torque = 0 * 2 ^ 2

abbrev pub com1_mode_dtorque : ℕ
com1_mode_dtorque = 1 * 2 ^ 2

abbrev pub com1_mode_velocity : ℕ
com1_mode_velocity = 2 * 2 ^ 2

abbrev pub com1_mode_dvelocity : ℕ
com1_mode_dvelocity = 3 * 2 ^ 2

abbrev pub com1_emergency1 : ℕ
com1_emergency1 = 0x0010

abbrev pub com1_emergency2 : ℕ
com1_emergency2 = 0x0020

abbrev pub com1_enableservo : ℕ
com1_enableservo = 0x0400

abbrev pub com1_servoclose : ℕ
com1_servoclose = 0x0800

abbrev pub com1_use_ts : ℕ
com1_use_ts = 0x8000

abbrev pub are_bits_parsable : Text → Bool
are_bits_parsable var_name = str_eq var_name (text "command1") || str_eq var_name (text "status1")

-- `std::to_string((data & mask) >> shift)`
unfoldable pub flag : ℕ → ℕ → ℕ → Text
flag data_word mask shift = to_string (bit_and data_word mask / 2 ^ shift)

-- `int(data & (0x3 << 2))`
unfoldable pub mode : ℕ → ℕ
mode data_word = bit_and data_word (3 * 2 ^ 2)

-- The four values pushed for the mode.
unfoldable pub mode_values : ℕ → List Text
mode_values m =
    if m == com1_mode_torque
    then text "1" ∷ text "0" ∷ text "0" ∷ text "0" ∷ []
    else if m == com1_mode_dtorque
    then text "0" ∷ text "1" ∷ text "0" ∷ text "0" ∷ []
    else if m == com1_mode_velocity
    then text "0" ∷ text "0" ∷ text "1" ∷ text "0" ∷ []
    else if m == com1_mode_dvelocity
    then text "0" ∷ text "0" ∷ text "0" ∷ text "1" ∷ []
    else text "0" ∷ text "0" ∷ text "0" ∷ text "0" ∷ []

abbrev pub command_names : List Text
command_names =
    text "ENABLE1"
    ∷ text "ENABLE2"
    ∷ text "MODE_TORQUE"
    ∷ text "MODE_DTORQUE"
    ∷ text "MODE_VELOCITY"
    ∷ text "MODE_DVELOCITY"
    ∷ text "EMERGENCY1"
    ∷ text "EMERGENCY2"
    ∷ text "ENABLESERVO"
    ∷ text "SERVOCLOSE"
    ∷ text "USE_TS"
    ∷ []

abbrev pub status_names : List Text
status_names =
    text "ENABLED1"
    ∷ text "ENABLED2"
    ∷ text "ENC_1_OK"
    ∷ text "ENC_2_OK"
    ∷ text "ENC_PIVOT_OK"
    ∷ text "UNDERVOLTAGE"
    ∷ text "OVERVOLTAGE"
    ∷ text "OVERCURRENT_1"
    ∷ text "OVERCURRENT_2"
    ∷ text "OVERTEMP_1"
    ∷ text "OVERTEMP_2"
    ∷ text "ENABLED_GRIP"
    ∷ text "INPOS_GRIP"
    ∷ text "OVERLOAD_GRIP"
    ∷ text "DETECT"
    ∷ []

unfoldable pub command_values : ℕ → List Text
command_values data_word =
    flag data_word com1_enable1 0
    ∷ flag data_word com1_enable2 1
    ∷ (mode_values (mode data_word)
        ++ (flag data_word com1_emergency1 4
            ∷ flag data_word com1_emergency2 5
            ∷ flag data_word com1_enableservo 10
            ∷ flag data_word com1_servoclose 11
            ∷ flag data_word com1_use_ts 15
            ∷ []))

unfoldable pub status_values : ℕ → List Text
status_values data_word =
    flag data_word stat1_enabled1 0
    ∷ flag data_word stat1_enabled2 1
    ∷ flag data_word stat1_enc_1_ok 2
    ∷ flag data_word stat1_enc_2_ok 3
    ∷ flag data_word stat1_enc_pivot_ok 4
    ∷ flag data_word stat1_undervoltage 5
    ∷ flag data_word stat1_overvoltage 6
    ∷ flag data_word stat1_overcurrent_1 7
    ∷ flag data_word stat1_overcurrent_2 8
    ∷ flag data_word stat1_overtemp_1 9
    ∷ flag data_word stat1_overtemp_2 10
    ∷ flag data_word stat1_enabled_grip 11
    ∷ flag data_word stat1_inpos_grip 12
    ∷ flag data_word stat1_overload_grip 13
    ∷ flag data_word stat1_detect 14
    ∷ []

-- The contents of `vars` and `vals` afterwards; both are cleared first.
unfoldable pub parse_bits : ℕ → Text → List Text × List Text → List Text × List Text
parse_bits data_word var_name out =
    if str_eq var_name (text "command1")
    then (command_names, command_values data_word)
    else if str_eq var_name (text "status1")
    then (status_names, status_values data_word)
    else ([], [])
