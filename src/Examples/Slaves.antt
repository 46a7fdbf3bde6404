-- ===== src/Examples/Slaves.antt =====
-- Text, slaves and the JSON message at concrete values.

use kddv.Base.{
  ℕ, ◌+◌, ◌*◌, ◌/◌, ◌%◌, ◌^◌, ◌≤◌, ◌≡◌, refl, pos, some, List, [], ◌∷◌, ◌++◌, map, length, arith,
  All,
}
use kddv.Text.{Text, text, to_string, stoul, scan_digits, str_eq}
use kddv.Text.Decimal.{stoul-to_string}
use kddv.Text.Float.{magnitude, float_to_string}
use kddv.Text.Float.Accuracy.{float_to_string_near}
use kddv.Scalar.{Scalar, u16, scalar_to_string}
use kddv.Json.{of_scalar}
use kddv.Slave
use kddv.Slave.{copy_device, SlaveInfo, EthercatSlave, Device, kelo_drive, robile_battery, slave_id}
use kddv.Slave.Image.{rx_image, tx_image, copy_device-image}
use kddv.Slave.Views.{json-sensors, json-commands}
use kddv.Slave.Drive
use kddv.Slave.Drive.Bits.Flags.{parse_bits_status, parse_bits_command}
use kddv.Slave.Battery.Bits.Flags.{parse_bits_words}
use kddv.Slave.Battery
use kddv.Source.{message_root}
use kddv.Source.Message.{message_holds}
use kddv.Examples.JsonModel.{json, json_laws}
use kddv.Examples.Devices.{some_drive, some_battery, drive_memory}

stoul-to_string_example : stoul (to_string 40970) ≡ some 40970
stoul-to_string_example = stoul-to_string 40970 (omega arith)

float_to_string_near_example :
    (whole : Text) × (part : Text) × (float_to_string 0xc11cf5c3
      ≡ text "-" ++ (whole ++ (b'.' ∷ part)))
    × (length part ≡ 6)
    × (2 * (scan_digits 0 (whole ++ part) * 2 ^ 149)
        ≤ 2 * (magnitude 0xc11cf5c3 * 10 ^ 6) + 2 ^ 149)
    × (2 * (magnitude 0xc11cf5c3 * 10 ^ 6)
        ≤ 2 * (scan_digits 0 (whole ++ part) * 2 ^ 149) + 2 ^ 149)
float_to_string_near_example = float_to_string_near 0xc11cf5c3 (omega arith)

-- Enabled in velocity mode, with time stamps used.
command_run : Drive.Bits.parse_bits 0x8009 (text "command1") ([], []) ≡ (
  Drive.Bits.command_names,
  map text ("1" ∷ "0" ∷ "0" ∷ "0" ∷ "1" ∷ "0" ∷ "0" ∷ "0" ∷ "0" ∷ "0" ∷ "1" ∷ []),
)
unfolding Drive.Bits.parse_bits Drive.Bits.command_values Drive.Bits.flag Drive.Bits.mode
    Drive.Bits.mode_values str_eq to_string
command_run = refl

parse_bits_status_example : Drive.Bits.parse_bits 0x4011 (text "status1") ([], []) ≡ (
  Drive.Bits.status_names,
  map
      (λ k. to_string (0x4011 / 2 ^ k % 2))
      (0 ∷ 1 ∷ 2 ∷ 3 ∷ 4 ∷ 5 ∷ 6 ∷ 7 ∷ 8 ∷ 9 ∷ 10 ∷ 11 ∷ 12 ∷ 13 ∷ 14 ∷ []),
)
parse_bits_status_example = parse_bits_status 0x4011 ([], [])

parse_bits_command_example : Drive.Bits.parse_bits 0x8009 (text "command1") ([], []) ≡ (
  Drive.Bits.command_names,
  to_string 1
      ∷ to_string 0
      ∷ text "0"
      ∷ text "0"
      ∷ text "1"
      ∷ text "0"
      ∷ to_string 0
      ∷ to_string 0
      ∷ to_string 0
      ∷ to_string 0
      ∷ to_string 1
      ∷ [],
)
parse_bits_command_example = parse_bits_command 0x8009 ([], [])

parse_bits_words_example :
    (Battery.Bits.parse_bits 0x41 (text "error") ([], []) ≡ (
      Battery.Bits.error_names,
      map (λ k. to_string (0x41 / 2 ^ k % 2)) (0 ∷ 1 ∷ 2 ∷ 3 ∷ 4 ∷ 5 ∷ 6 ∷ []),
    ))
    × (Battery.Bits.parse_bits 0x41 (text "warning") ([], [])
        ≡ (Battery.Bits.warning_names, map (λ k. to_string (0x41 / 2 ^ k % 2)) (0 ∷ 1 ∷ [])))
parse_bits_words_example = parse_bits_words 0x41 ([], [])

copy_device-image_example :
    copy_device
      (kelo_drive drive_memory)
      (rx_image (kelo_drive some_drive) ++ 9 ∷ [])
      (tx_image (kelo_drive some_drive) ++ [])
    ≡ some (kelo_drive some_drive)
copy_device-image_example =
    copy_device-image (kelo_drive drive_memory) (kelo_drive some_drive) (9 ∷ []) [] tt
      (omega arith, omega arith)

json-sensors_example :
    (x : Scalar) × (scalar_to_string x ≡ scalar_to_string (u16 some_battery.tx.error))
    × (json.get
          (json.get
            (Slave.convert_to_json json (robile_battery some_battery) json.null)
            (text "sensors"))
          (text "error")
        ≡ of_scalar json x)
unfolding Slave.get_tx_variables Slave.get_tx_values
json-sensors_example = json-sensors json json_laws (robile_battery some_battery) 2 refl refl

json-commands_example :
    (x : Scalar) × (scalar_to_string x ≡ scalar_to_string (u16 some_battery.rx.shutdown))
    × (json.get
          (json.get
            (Slave.convert_to_json json (robile_battery some_battery) json.null)
            (text "commands"))
          (text "shutdown")
        ≡ of_scalar json x)
unfolding Slave.get_rx_variables Slave.get_rx_values
json-commands_example = json-commands json json_laws (robile_battery some_battery) 2 refl refl

abbrev info : ℕ → SlaveInfo
info n = record {
  name = text "KELOD105";
  slave_type = 1;
  slave_number = pos n;
  eep_man = pos 1280;
  eep_rev = pos 1020;
  eep_id = pos 33558529;
  address = pos 4099;
  rx_start_offset = pos 12;
  tx_start_offset = pos 152;
}

abbrev two_slaves : List EthercatSlave
two_slaves =
    record { slave_info = info 3; device = kelo_drive some_drive }
    ∷ record { slave_info = info 5; device = kelo_drive drive_memory }
    ∷ []

message_holds_example :
    (json.get (message_root json 1500 two_slaves) (text "timestamp") ≡ json.of_millis 1500)
    × All
        (λ s.
          json.get (message_root json 1500 two_slaves) (slave_id s.slave_info)
          ≡ Slave.convert_to_json json s.device json.null)
        two_slaves
message_holds_example =
    message_holds json json_laws 1500 two_slaves (((λ e. ground arith), tt), (tt, tt))
