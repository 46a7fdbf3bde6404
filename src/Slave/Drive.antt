-- ===== src/Slave/Drive.antt =====
-- KeloDriveSlave of src/kelo_drive_slave.cpp: `copyData`, `convertToJson`, `getRxValues` and `getTxValues`.
pub mod Pdo
pub mod Names
pub mod Bits
pub mod Layout
use kddv.Base.{ℕ, Option, some, ◌>>=◌, List, [], ◌∷◌}
use kddv.Text.{Text, text}
use kddv.Memory.{memcpy}
use kddv.Json.{JsonLib}
use kddv.Json.Assign.{assign}
use kddv.Scalar.{Scalar, u16, u32, u64, f32, scalar_to_string}
use kddv.Slave.Drive.Pdo.{RxPdo1, TxPdo1, rx_size, tx_size, rx_of_bytes, tx_of_bytes}

pub record KeloDriveSlave : Type 0 where
  pub rx : RxPdo1
  pub tx : TxPdo1

-- `none` is a read past the end of the process data.
unfoldable pub copy_data : KeloDriveSlave → List ℕ → List ℕ → Option KeloDriveSlave
copy_data s outputs inputs = do
  rx_bytes ← memcpy rx_size outputs
  tx_bytes ← memcpy tx_size inputs
  some (record s { rx = rx_of_bytes rx_bytes; tx = tx_of_bytes tx_bytes })

-- The assignments to `data["commands"]`, in their order.
unfoldable pub commands : KeloDriveSlave → List (Text × Scalar)
commands s =
    (text "command1", u16 s.rx.command1)
    ∷ (text "command2", u16 s.rx.command2)
    ∷ (text "setpoint1", f32 s.rx.setpoint1)
    ∷ (text "setpoint2", f32 s.rx.setpoint2)
    ∷ (text "limit1_p", f32 s.rx.limit1_p)
    ∷ (text "limit1_n", f32 s.rx.limit1_n)
    ∷ (text "limit2_p", f32 s.rx.limit2_p)
    ∷ (text "limit2_n", f32 s.rx.limit2_n)
    ∷ (text "timestamp", u64 s.rx.timestamp)
    ∷ []

-- The assignments to `data["sensors"]`, in their order.
unfoldable pub sensors : KeloDriveSlave → List (Text × Scalar)
sensors s =
    (text "status1", u16 s.tx.status1)
    ∷ (text "status2", u16 s.tx.status2)
    ∷ (text "sensor_ts", u64 s.tx.sensor_ts)
    ∷ (text "setpoint_ts", u64 s.tx.setpoint_ts)
    ∷ (text "encoder_1", f32 s.tx.encoder_1)
    ∷ (text "velocity_1", f32 s.tx.velocity_1)
    ∷ (text "current_1_d", f32 s.tx.current_1_d)
    ∷ (text "current_1_q", f32 s.tx.current_1_q)
    ∷ (text "current_1_u", f32 s.tx.current_1_u)
    ∷ (text "current_1_v", f32 s.tx.current_1_v)
    ∷ (text "current_1_w", f32 s.tx.current_1_w)
    ∷ (text "voltage_1", f32 s.tx.voltage_1)
    ∷ (text "voltage_1_u", f32 s.tx.voltage_1_u)
    ∷ (text "voltage_1_v", f32 s.tx.voltage_1_v)
    ∷ (text "voltage_1_w", f32 s.tx.voltage_1_w)
    ∷ (text "temperature_1", f32 s.tx.temperature_1)
    ∷ (text "encoder_2", f32 s.tx.encoder_2)
    ∷ (text "velocity_2", f32 s.tx.velocity_2)
    ∷ (text "current_2_d", f32 s.tx.current_2_d)
    ∷ (text "current_2_q", f32 s.tx.current_2_q)
    ∷ (text "current_2_u", f32 s.tx.current_2_u)
    ∷ (text "current_2_v", f32 s.tx.current_2_v)
    ∷ (text "current_2_w", f32 s.tx.current_2_w)
    ∷ (text "voltage_2", f32 s.tx.voltage_2)
    ∷ (text "voltage_2_u", f32 s.tx.voltage_2_u)
    ∷ (text "voltage_2_v", f32 s.tx.voltage_2_v)
    ∷ (text "voltage_2_w", f32 s.tx.voltage_2_w)
    ∷ (text "temperature_2", f32 s.tx.temperature_2)
    ∷ (text "encoder_pivot", f32 s.tx.encoder_pivot)
    ∷ (text "velocity_pivot", f32 s.tx.velocity_pivot)
    ∷ (text "voltage_bus", f32 s.tx.voltage_bus)
    ∷ (text "imu_ts", u64 s.tx.imu_ts)
    ∷ (text "accel_x", f32 s.tx.accel_x)
    ∷ (text "accel_y", f32 s.tx.accel_y)
    ∷ (text "accel_z", f32 s.tx.accel_z)
    ∷ (text "gyro_x", f32 s.tx.gyro_x)
    ∷ (text "gyro_y", f32 s.tx.gyro_y)
    ∷ (text "gyro_z", f32 s.tx.gyro_z)
    ∷ (text "temperature_imu", f32 s.tx.temperature_imu)
    ∷ (text "pressure", f32 s.tx.pressure)
    ∷ (text "current_in", f32 s.tx.current_in)
    ∷ []

unfoldable pub get_rx_values : KeloDriveSlave → List Text
get_rx_values s =
    scalar_to_string (u16 s.rx.command1)
    ∷ scalar_to_string (u16 s.rx.command2)
    ∷ scalar_to_string (f32 s.rx.setpoint1)
    ∷ scalar_to_string (f32 s.rx.setpoint2)
    ∷ scalar_to_string (f32 s.rx.limit1_p)
    ∷ scalar_to_string (f32 s.rx.limit1_n)
    ∷ scalar_to_string (f32 s.rx.limit2_p)
    ∷ scalar_to_string (f32 s.rx.limit2_n)
    ∷ scalar_to_string (u64 s.rx.timestamp)
    ∷ []

unfoldable pub get_tx_values : KeloDriveSlave → List Text
get_tx_values s =
    scalar_to_string (u16 s.tx.status1)
    ∷ scalar_to_string (u16 s.tx.status2)
    ∷ scalar_to_string (u64 s.tx.sensor_ts)
    ∷ scalar_to_string (u64 s.tx.setpoint_ts)
    ∷ scalar_to_string (f32 s.tx.encoder_1)
    ∷ scalar_to_string (f32 s.tx.velocity_1)
    ∷ scalar_to_string (f32 s.tx.current_1_d)
    ∷ scalar_to_string (f32 s.tx.current_1_q)
    ∷ scalar_to_string (f32 s.tx.current_1_u)
    ∷ scalar_to_string (f32 s.tx.current_1_v)
    ∷ scalar_to_string (f32 s.tx.current_1_w)
    ∷ scalar_to_string (f32 s.tx.voltage_1)
    ∷ scalar_to_string (f32 s.tx.voltage_1_u)
    ∷ scalar_to_string (f32 s.tx.voltage_1_v)
    ∷ scalar_to_string (f32 s.tx.voltage_1_w)
    ∷ scalar_to_string (f32 s.tx.temperature_1)
    ∷ scalar_to_string (f32 s.tx.encoder_2)
    ∷ scalar_to_string (f32 s.tx.velocity_2)
    ∷ scalar_to_string (f32 s.tx.current_2_d)
    ∷ scalar_to_string (f32 s.tx.current_2_q)
    ∷ scalar_to_string (f32 s.tx.current_2_u)
    ∷ scalar_to_string (f32 s.tx.current_2_v)
    ∷ scalar_to_string (f32 s.tx.current_2_w)
    ∷ scalar_to_string (f32 s.tx.voltage_2)
    ∷ scalar_to_string (f32 s.tx.voltage_2_u)
    ∷ scalar_to_string (f32 s.tx.voltage_2_v)
    ∷ scalar_to_string (f32 s.tx.voltage_2_w)
    ∷ scalar_to_string (f32 s.tx.temperature_2)
    ∷ scalar_to_string (f32 s.tx.encoder_pivot)
    ∷ scalar_to_string (f32 s.tx.velocity_pivot)
    ∷ scalar_to_string (f32 s.tx.voltage_bus)
    ∷ scalar_to_string (u64 s.tx.imu_ts)
    ∷ scalar_to_string (f32 s.tx.accel_x)
    ∷ scalar_to_string (f32 s.tx.accel_y)
    ∷ scalar_to_string (f32 s.tx.accel_z)
    ∷ scalar_to_string (f32 s.tx.gyro_x)
    ∷ scalar_to_string (f32 s.tx.gyro_y)
    ∷ scalar_to_string (f32 s.tx.gyro_z)
    ∷ scalar_to_string (f32 s.tx.temperature_imu)
    ∷ scalar_to_string (f32 s.tx.pressure)
    ∷ scalar_to_string (f32 s.tx.current_in)
    ∷ []

-- `convertToJson` on the value of `data`.
unfoldable pub convert_to_json : (J : JsonLib) → KeloDriveSlave → J.Value → J.Value
convert_to_json J s v =
    assign J (text "sensors") (sensors s) (assign J (text "commands") (commands s) v)
