-- ===== src/Slave/Bms.antt =====
-- KeloBmsSlave of src/kelo_bms_slave.cpp: `copyData`, `convertToJson`, `getRxValues` and `getTxValues`.
pub mod Pdo
pub mod Names
pub mod Bits
pub mod Layout
use kddv.Base.{ℕ, Option, some, ◌>>=◌, List, [], ◌∷◌}
use kddv.Text.{Text, text}
use kddv.Memory.{memcpy}
use kddv.Json.{JsonLib}
use kddv.Json.Assign.{assign}
use kddv.Scalar.{Scalar, u16, u32, u64, f32, scalar_to_string}
use kddv.Slave.Bms.Pdo.{EcPdRx, EcPdTx, rx_size, tx_size, rx_of_bytes, tx_of_bytes}

pub record KeloBmsSlave : Type 0 where
  pub rx : EcPdRx
  pub tx : EcPdTx

-- `none` is a read past the end of the process data.
unfoldable pub copy_data : KeloBmsSlave → List ℕ → List ℕ → Option KeloBmsSlave
copy_data s outputs inputs = do
  rx_bytes ← memcpy rx_size outputs
  tx_bytes ← memcpy tx_size inputs
  some (record s { rx = rx_of_bytes rx_bytes; tx = tx_of_bytes tx_bytes })

-- The assignments to `data["commands"]`, in their order.
unfoldable pub commands : KeloBmsSlave → List (Text × Scalar)
commands s =
    (text "command", u32 s.rx.command)
    ∷ (text "bms1_command", u16 s.rx.bms1_command)
    ∷ (text "bms2_command", u16 s.rx.bms2_command)
    ∷ (text "neopixel_range1", u16 s.rx.neopixel_range1)
    ∷ (text "neopixel_color1", u32 s.rx.neopixel_color1)
    ∷ (text "neopixel_range2", u16 s.rx.neopixel_range2)
    ∷ (text "neopixel_color2", u32 s.rx.neopixel_color2)
    ∷ []

-- The assignments to `data["sensors"]`, in their order.
unfoldable pub sensors : KeloBmsSlave → List (Text × Scalar)
sensors s =
    (text "status", u32 s.tx.status)
    ∷ (text "imu_ts", u64 s.tx.imu_ts)
    ∷ (text "accel_x", f32 s.tx.accel_x)
    ∷ (text "accel_y", f32 s.tx.accel_y)
    ∷ (text "accel_z", f32 s.tx.accel_z)
    ∷ (text "gyro_x", f32 s.tx.gyro_x)
    ∷ (text "gyro_y", f32 s.tx.gyro_y)
    ∷ (text "gyro_z", f32 s.tx.gyro_z)
    ∷ (text "imu_temperature", f32 s.tx.imu_temperature)
    ∷ (text "pressure", f32 s.tx.pressure)
    ∷ (text "chargeport_voltage", f32 s.tx.chargeport_voltage)
    ∷ (text "enable_voltage", f32 s.tx.enable_voltage)
    ∷ (text "neopixel_voltage", f32 s.tx.neopixel_voltage)
    ∷ (text "bus_voltage", f32 s.tx.bus_voltage)
    ∷ (text "id1", u32 s.tx.id1)
    ∷ (text "status1", u16 s.tx.status1)
    ∷ (text "voltage1", f32 s.tx.voltage1)
    ∷ (text "current1", f32 s.tx.current1)
    ∷ (text "soc1", f32 s.tx.soc1)
    ∷ (text "temperature1", f32 s.tx.temperature1)
    ∷ (text "cycles1", f32 s.tx.cycles1)
    ∷ (text "id2", u32 s.tx.id2)
    ∷ (text "status2", u16 s.tx.status2)
    ∷ (text "voltage2", f32 s.tx.voltage2)
    ∷ (text "current2", f32 s.tx.current2)
    ∷ (text "soc2", f32 s.tx.soc2)
    ∷ (text "temperature2", f32 s.tx.temperature2)
    ∷ (text "cycles2", f32 s.tx.cycles2)
    ∷ []

unfoldable pub get_rx_values : KeloBmsSlave → List Text
get_rx_values s =
    scalar_to_string (u32 s.rx.command)
    ∷ scalar_to_string (u16 s.rx.bms1_command)
    ∷ scalar_to_string (u16 s.rx.bms2_command)
    ∷ scalar_to_string (u16 s.rx.neopixel_range1)
    ∷ scalar_to_string (u32 s.rx.neopixel_color1)
    ∷ scalar_to_string (u16 s.rx.neopixel_range2)
    ∷ scalar_to_string (u32 s.rx.neopixel_color2)
    ∷ []

unfoldable pub get_tx_values : KeloBmsSlave → List Text
get_tx_values s =
    scalar_to_string (u32 s.tx.status)
    ∷ scalar_to_string (u64 s.tx.imu_ts)
    ∷ scalar_to_string (f32 s.tx.accel_x)
    ∷ scalar_to_string (f32 s.tx.accel_y)
    ∷ scalar_to_string (f32 s.tx.accel_z)
    ∷ scalar_to_string (f32 s.tx.gyro_x)
    ∷ scalar_to_string (f32 s.tx.gyro_y)
    ∷ scalar_to_string (f32 s.tx.gyro_z)
    ∷ scalar_to_string (f32 s.tx.imu_temperature)
    ∷ scalar_to_string (f32 s.tx.pressure)
    ∷ scalar_to_string (f32 s.tx.chargeport_voltage)
    ∷ scalar_to_string (f32 s.tx.enable_voltage)
    ∷ scalar_to_string (f32 s.tx.neopixel_voltage)
    ∷ scalar_to_string (f32 s.tx.bus_voltage)
    ∷ scalar_to_string (u32 s.tx.id1)
    ∷ scalar_to_string (u16 s.tx.status1)
    ∷ scalar_to_string (f32 s.tx.voltage1)
    ∷ scalar_to_string (f32 s.tx.current1)
    ∷ scalar_to_string (f32 s.tx.soc1)
    ∷ scalar_to_string (f32 s.tx.temperature1)
    ∷ scalar_to_string (f32 s.tx.cycles1)
    ∷ scalar_to_string (u32 s.tx.id2)
    ∷ scalar_to_string (u16 s.tx.status2)
    ∷ scalar_to_string (f32 s.tx.voltage2)
    ∷ scalar_to_string (f32 s.tx.current2)
    ∷ scalar_to_string (f32 s.tx.soc2)
    ∷ scalar_to_string (f32 s.tx.temperature2)
    ∷ scalar_to_string (f32 s.tx.cycles2)
    ∷ []

-- `convertToJson` on the value of `data`.
unfoldable pub convert_to_json : (J : JsonLib) → KeloBmsSlave → J.Value → J.Value
convert_to_json J s v =
    assign J (text "sensors") (sensors s) (assign J (text "commands") (commands s) v)
