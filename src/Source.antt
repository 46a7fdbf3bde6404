-- ===== src/Source.antt =====
-- src/ethercat_data_source.cpp and its header: what the two data sources share. The state of
-- `EthercatDataSource` that the other parts change is the list of slaves and the ZMQ switch.
pub mod Interfaces
pub mod Message
use kddv.Base.{
  ℕ, ℤ, Bool, true, false, ◌||◌, Option, none, some, List, [], ◌∷◌, ◌==◌, if◌then◌else◌,
}
use kddv.Text.{Text, text, str_eq}
use kddv.Json.{JsonLib}
use kddv.Slave.{
  EthercatSlave, SlaveInfo, Device, kelo_drive, robile_battery, kelo_bms, kelo_drive_slave,
  robile_battery_slave, kelo_bms_slave, slave_id,
}
use kddv.Slave
use kddv.Slave.Drive.{KeloDriveSlave}
use kddv.Slave.Battery.{RobileBatterySlave}
use kddv.Slave.Bms.{KeloBmsSlave}

-- The result is a `uint8_t`, so the -1 for an unknown name is 255.
unfoldable pub get_slave_type : Text → ℕ
get_slave_type name =
    if str_eq name (text "KELO_ROBILE")
    then robile_battery_slave
    else if str_eq name (text "SWMC") || str_eq name (text "KELOD105")
    then kelo_drive_slave
    else if str_eq name (text "KeloEcPd")
    then kelo_bms_slave
    else 255

-- What the memory of a new slave holds: the constructors leave `rx` and `tx` uninitialised.
pub record Uninitialised : Type 0 where
  pub drive : KeloDriveSlave
  pub battery : RobileBatterySlave
  pub bms : KeloBmsSlave

-- The chain of `make_shared` in both `getSlaves`; `none` is the null pointer that is left where no
-- type matches.
unfoldable pub make_device : Uninitialised → ℕ → Option Device
make_device u slave_type =
    if slave_type == robile_battery_slave
    then some (robile_battery u.battery)
    else if slave_type == kelo_drive_slave
    then some (kelo_drive u.drive)
    else if slave_type == kelo_bms_slave
    then some (kelo_bms u.bms)
    else none

-- One round of the loop over the slaves for each slave.
unfoldable pub add_slaves : (J : JsonLib) → J.Value → List EthercatSlave → J.Value
add_slaves J root [] = root
add_slaves J root (s ∷ rest) =
    add_slaves J (J.set root (slave_id s.slave_info) (Slave.convert_to_json J s.device J.null)) rest

-- The tree that is written out, at `now` milliseconds since the epoch.
unfoldable pub message_root : (J : JsonLib) → ℕ → List EthercatSlave → J.Value
unfolding add_slaves
message_root J now slaves = add_slaves J (J.set J.null (text "timestamp") (J.of_millis now)) slaves

unfoldable pub convert_to_json : (J : JsonLib) → ℕ → List EthercatSlave → Text
unfolding message_root
convert_to_json J now slaves = J.write_string (message_root J now slaves)
