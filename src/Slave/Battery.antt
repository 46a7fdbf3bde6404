-- ===== src/Slave/Battery.antt =====
-- RobileBatterySlave of src/robile_battery_slave.cpp: `copyData`, `convertToJson`, `getRxValues` and `getTxValues`.
pub mod Pdo
pub mod Names
pub mod Bits
pub mod Layout
use kddv.Base.{ℕ, Option, some, ◌>>=◌, List, [], ◌∷◌}
use kddv.Text.{Text, text}
use kddv.Memory.{memcpy}
use kddv.Json.{JsonLib}
use kddv.Json.Assign.{assign}
use kddv.Scalar.{Scalar, u16, u32, u64, f32, scalar_to_string}
use kddv.Slave.Battery.Pdo.{
  RobileMasterBatteryProcessDataOutput, RobileMasterBatteryProcessDataInput, rx_size, tx_size,
  rx_of_bytes, tx_of_bytes,
}

pub record RobileBatterySlave : Type 0 where
  pub rx : RobileMasterBatteryProcessDataOutput
  pub tx : RobileMasterBatteryProcessDataInput

-- `none` is a read past the end of the process data.
unfoldable pub copy_data : RobileBatterySlave → List ℕ → List ℕ → Option RobileBatterySlave
copy_data s outputs inputs = do
  rx_bytes ← memcpy rx_size outputs
  tx_bytes ← memcpy tx_size inputs
  some (record s { rx = rx_of_bytes rx_bytes; tx = tx_of_bytes tx_bytes })

-- The assignments to `data["commands"]`, in their order.
unfoldable pub commands : RobileBatterySlave → List (Text × Scalar)
commands s =
    (text "command1", u32 s.rx.command1)
    ∷ (text "command2", u32 s.rx.command2)
    ∷ (text "shutdown", u16 s.rx.shutdown)
    ∷ (text "pwr_device_id", u16 s.rx.pwr_device_id)
    ∷ []

-- The assignments to `data["sensors"]`, in their order.
unfoldable pub sensors : RobileBatterySlave → List (Text × Scalar)
sensors s =
    (text "timestamp", u64 s.tx.time_stamp)
    ∷ (text "status", u16 s.tx.status)
    ∷ (text "error", u16 s.tx.error)
    ∷ (text "warning", u16 s.tx.warning)
    ∷ (text "output_current", f32 s.tx.output_current)
    ∷ (text "output_voltage", f32 s.tx.output_voltage)
    ∷ (text "output_power", f32 s.tx.output_power)
    ∷ (text "aux_port_current", f32 s.tx.aux_port_current)
    ∷ (text "generic_data1", f32 s.tx.generic_data1)
    ∷ (text "generic_data2", u32 s.tx.generic_data2)
    ∷ (text "bmsm_pwr_device_id", u16 s.tx.bmsm_pwr_device_id)
    ∷ (text "bmsm_status", u16 s.tx.bmsm_status)
    ∷ (text "bmsm_voltage", f32 s.tx.bmsm_voltage)
    ∷ (text "bmsm_current", f32 s.tx.bmsm_current)
    ∷ (text "bmsm_temperature", f32 s.tx.bmsm_temperature)
    ∷ (text "bmsm_soc", u16 s.tx.bmsm_soc)
    ∷ (text "bmsm_sn", u32 s.tx.bmsm_sn)
    ∷ (text "bmsm_bat_data1", u32 s.tx.bmsm_bat_data1)
    ∷ (text "bmsm_bat_data2", f32 s.tx.bmsm_bat_data2)
    ∷ []

unfoldable pub get_rx_values : RobileBatterySlave → List Text
get_rx_values s =
    scalar_to_string (u32 s.rx.command1)
    ∷ scalar_to_string (u32 s.rx.command2)
    ∷ scalar_to_string (u16 s.rx.shutdown)
    ∷ scalar_to_string (u16 s.rx.pwr_device_id)
    ∷ []

unfoldable pub get_tx_values : RobileBatterySlave → List Text
get_tx_values s =
    scalar_to_string (u64 s.tx.time_stamp)
    ∷ scalar_to_string (u16 s.tx.status)
    ∷ scalar_to_string (u16 s.tx.error)
    ∷ scalar_to_string (u16 s.tx.warning)
    ∷ scalar_to_string (f32 s.tx.output_current)
    ∷ scalar_to_string (f32 s.tx.output_voltage)
    ∷ scalar_to_string (f32 s.tx.output_power)
    ∷ scalar_to_string (f32 s.tx.aux_port_current)
    ∷ scalar_to_string (f32 s.tx.generic_data1)
    ∷ scalar_to_string (u32 s.tx.generic_data2)
    ∷ scalar_to_string (u16 s.tx.bmsm_pwr_device_id)
    ∷ scalar_to_string (u16 s.tx.bmsm_status)
    ∷ scalar_to_string (f32 s.tx.bmsm_voltage)
    ∷ scalar_to_string (f32 s.tx.bmsm_current)
    ∷ scalar_to_string (f32 s.tx.bmsm_temperature)
    ∷ scalar_to_string (u16 s.tx.bmsm_soc)
    ∷ scalar_to_string (u32 s.tx.bmsm_sn)
    ∷ scalar_to_string (u32 s.tx.bmsm_bat_data1)
    ∷ scalar_to_string (f32 s.tx.bmsm_bat_data2)
    ∷ []

-- `convertToJson` on the value of `data`.
unfoldable pub convert_to_json : (J : JsonLib) → RobileBatterySlave → J.Value → J.Value
convert_to_json J s v =
    assign J (text "sensors") (sensors s) (assign J (text "commands") (commands s) v)
