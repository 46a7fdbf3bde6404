-- ===== src/Slave.antt =====
-- include/ethercat_slave.h: the interface `EthercatSlave`, as a sum of the three classes that
-- implement it, whose methods dispatch on the class.
pub mod Drive
pub mod Battery
pub mod Bms
pub mod Views
pub mod Keys
pub mod Image
use kddv.Base.{ℕ, ℤ, Bool, Option, some, ◌>>=◌, List, ◌++◌, ◌∷◌}
use kddv.Text.{Text, text}
use kddv.Scalar.{int_to_string}
use kddv.Json.{JsonLib}
use kddv.Slave.Drive
use kddv.Slave.Battery
use kddv.Slave.Bms

pub record SlaveInfo : Type 0 where
  pub name : Text
  pub slave_type : ℕ  -- uint8_t
  pub slave_number : ℤ
  pub eep_man : ℤ
  pub eep_rev : ℤ
  pub eep_id : ℤ
  pub address : ℤ
  pub rx_start_offset : ℤ
  pub tx_start_offset : ℤ

abbrev pub kelo_drive_slave : ℕ
kelo_drive_slave = 1

abbrev pub robile_battery_slave : ℕ
robile_battery_slave = 2

abbrev pub kelo_bms_slave : ℕ
kelo_bms_slave = 3

pub data Device : Type 0 where
  kelo_drive : Drive.KeloDriveSlave → Device
  robile_battery : Battery.RobileBatterySlave → Device
  kelo_bms : Bms.KeloBmsSlave → Device

pub record EthercatSlave : Type 0 where
  pub slave_info : SlaveInfo
  pub device : Device

unfoldable pub copy_device : Device → List ℕ → List ℕ → Option Device
copy_device (kelo_drive s) outputs inputs = do
  s' ← Drive.copy_data s outputs inputs
  some (kelo_drive s')
copy_device (robile_battery s) outputs inputs = do
  s' ← Battery.copy_data s outputs inputs
  some (robile_battery s')
copy_device (kelo_bms s) outputs inputs = do s' ← Bms.copy_data s outputs inputs; some (kelo_bms s')

-- `slave->copyData(outputs, inputs)`
unfoldable pub copy_data : EthercatSlave → List ℕ → List ℕ → Option EthercatSlave
unfolding copy_device
copy_data s outputs inputs = do
  d ← copy_device s.device outputs inputs
  some (record s { device = d })

unfoldable pub get_rx_variables : Device → List Text
unfolding Drive.Names.rx_variables Battery.Names.rx_variables Bms.Names.rx_variables
get_rx_variables (kelo_drive s) = Drive.Names.rx_variables
get_rx_variables (robile_battery s) = Battery.Names.rx_variables
get_rx_variables (kelo_bms s) = Bms.Names.rx_variables

unfoldable pub get_tx_variables : Device → List Text
unfolding Drive.Names.tx_variables Battery.Names.tx_variables Bms.Names.tx_variables
get_tx_variables (kelo_drive s) = Drive.Names.tx_variables
get_tx_variables (robile_battery s) = Battery.Names.tx_variables
get_tx_variables (kelo_bms s) = Bms.Names.tx_variables

unfoldable pub get_rx_units : Device → List Text
unfolding Drive.Names.rx_units Battery.Names.rx_units Bms.Names.rx_units
get_rx_units (kelo_drive s) = Drive.Names.rx_units
get_rx_units (robile_battery s) = Battery.Names.rx_units
get_rx_units (kelo_bms s) = Bms.Names.rx_units

unfoldable pub get_tx_units : Device → List Text
unfolding Drive.Names.tx_units Battery.Names.tx_units Bms.Names.tx_units
get_tx_units (kelo_drive s) = Drive.Names.tx_units
get_tx_units (robile_battery s) = Battery.Names.tx_units
get_tx_units (kelo_bms s) = Bms.Names.tx_units

unfoldable pub get_rx_values : Device → List Text
unfolding Drive.get_rx_values Battery.get_rx_values Bms.get_rx_values
get_rx_values (kelo_drive s) = Drive.get_rx_values s
get_rx_values (robile_battery s) = Battery.get_rx_values s
get_rx_values (kelo_bms s) = Bms.get_rx_values s

unfoldable pub get_tx_values : Device → List Text
unfolding Drive.get_tx_values Battery.get_tx_values Bms.get_tx_values
get_tx_values (kelo_drive s) = Drive.get_tx_values s
get_tx_values (robile_battery s) = Battery.get_tx_values s
get_tx_values (kelo_bms s) = Bms.get_tx_values s

unfoldable pub are_bits_parsable : Device → Text → Bool
are_bits_parsable (kelo_drive s) = Drive.Bits.are_bits_parsable
are_bits_parsable (robile_battery s) = Battery.Bits.are_bits_parsable
are_bits_parsable (kelo_bms s) = Bms.Bits.are_bits_parsable

unfoldable pub parse_bits : Device → ℕ → Text → List Text × List Text → List Text × List Text
unfolding Drive.Bits.parse_bits Battery.Bits.parse_bits Bms.Bits.parse_bits
parse_bits (kelo_drive s) = Drive.Bits.parse_bits
parse_bits (robile_battery s) = Battery.Bits.parse_bits
parse_bits (kelo_bms s) = Bms.Bits.parse_bits

unfoldable pub convert_to_json : (J : JsonLib) → Device → J.Value → J.Value
unfolding Drive.convert_to_json Battery.convert_to_json Bms.convert_to_json
convert_to_json J (kelo_drive s) = Drive.convert_to_json J s
convert_to_json J (robile_battery s) = Battery.convert_to_json J s
convert_to_json J (kelo_bms s) = Bms.convert_to_json J s

-- `name + " " + std::to_string(slave_number)`, by which a slave is known in the JSON message and on
-- the screen.
unfoldable pub slave_id : SlaveInfo → Text
slave_id info = info.name ++ (text " " ++ int_to_string info.slave_number)
