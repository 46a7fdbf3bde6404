-- ===== src/Slave/Drive/Layout.antt =====
-- The layout of the packed structs of include/KeloDriveAPI.h, stated from the sender's side: the fields
-- in the order of their declarations, little-endian, with nothing between them.
use kddv.Base.{ℕ, ◌<◌, ◌^◌, ◌≡◌, some, List, [], ◌∷◌, ◌++◌, ◌∙◌}
use kddv.Memory.{memcpy, memcpy-append, u16_at-le16, u32_at-le32, u64_at-le64}
use kddv.Scalar.{Scalar, u16, u64, f32, wire}
use kddv.Slave.Drive.Pdo.{RxPdo1, TxPdo1, rx_size, tx_size, rx_of_bytes, tx_of_bytes}
use kddv.Slave.Drive.{KeloDriveSlave, copy_data}

abbrev pub rx_fields : RxPdo1 → List Scalar
rx_fields r =
    u16 r.command1
    ∷ u16 r.command2
    ∷ f32 r.setpoint1
    ∷ f32 r.setpoint2
    ∷ f32 r.limit1_p
    ∷ f32 r.limit1_n
    ∷ f32 r.limit2_p
    ∷ f32 r.limit2_n
    ∷ u64 r.timestamp
    ∷ []

abbrev pub tx_fields : TxPdo1 → List Scalar
tx_fields r =
    u16 r.status1
    ∷ u16 r.status2
    ∷ u64 r.sensor_ts
    ∷ u64 r.setpoint_ts
    ∷ f32 r.encoder_1
    ∷ f32 r.velocity_1
    ∷ f32 r.current_1_d
    ∷ f32 r.current_1_q
    ∷ f32 r.current_1_u
    ∷ f32 r.current_1_v
    ∷ f32 r.current_1_w
    ∷ f32 r.voltage_1
    ∷ f32 r.voltage_1_u
    ∷ f32 r.voltage_1_v
    ∷ f32 r.voltage_1_w
    ∷ f32 r.temperature_1
    ∷ f32 r.encoder_2
    ∷ f32 r.velocity_2
    ∷ f32 r.current_2_d
    ∷ f32 r.current_2_q
    ∷ f32 r.current_2_u
    ∷ f32 r.current_2_v
    ∷ f32 r.current_2_w
    ∷ f32 r.voltage_2
    ∷ f32 r.voltage_2_u
    ∷ f32 r.voltage_2_v
    ∷ f32 r.voltage_2_w
    ∷ f32 r.temperature_2
    ∷ f32 r.encoder_pivot
    ∷ f32 r.velocity_pivot
    ∷ f32 r.voltage_bus
    ∷ u64 r.imu_ts
    ∷ f32 r.accel_x
    ∷ f32 r.accel_y
    ∷ f32 r.accel_z
    ∷ f32 r.gyro_x
    ∷ f32 r.gyro_y
    ∷ f32 r.gyro_z
    ∷ f32 r.temperature_imu
    ∷ f32 r.pressure
    ∷ f32 r.current_in
    ∷ []

-- Every field holds a value of its C type.
pub record RxFits (r : RxPdo1) : Type 0 where
  pub command1_fits : r.command1 < 2 ^ 16
  pub command2_fits : r.command2 < 2 ^ 16
  pub setpoint1_fits : r.setpoint1 < 2 ^ 32
  pub setpoint2_fits : r.setpoint2 < 2 ^ 32
  pub limit1_p_fits : r.limit1_p < 2 ^ 32
  pub limit1_n_fits : r.limit1_n < 2 ^ 32
  pub limit2_p_fits : r.limit2_p < 2 ^ 32
  pub limit2_n_fits : r.limit2_n < 2 ^ 32
  pub timestamp_fits : r.timestamp < 2 ^ 64

-- Every field holds a value of its C type.
pub record TxFits (r : TxPdo1) : Type 0 where
  pub status1_fits : r.status1 < 2 ^ 16
  pub status2_fits : r.status2 < 2 ^ 16
  pub sensor_ts_fits : r.sensor_ts < 2 ^ 64
  pub setpoint_ts_fits : r.setpoint_ts < 2 ^ 64
  pub encoder_1_fits : r.encoder_1 < 2 ^ 32
  pub velocity_1_fits : r.velocity_1 < 2 ^ 32
  pub current_1_d_fits : r.current_1_d < 2 ^ 32
  pub current_1_q_fits : r.current_1_q < 2 ^ 32
  pub current_1_u_fits : r.current_1_u < 2 ^ 32
  pub current_1_v_fits : r.current_1_v < 2 ^ 32
  pub current_1_w_fits : r.current_1_w < 2 ^ 32
  pub voltage_1_fits : r.voltage_1 < 2 ^ 32
  pub voltage_1_u_fits : r.voltage_1_u < 2 ^ 32
  pub voltage_1_v_fits : r.voltage_1_v < 2 ^ 32
  pub voltage_1_w_fits : r.voltage_1_w < 2 ^ 32
  pub temperature_1_fits : r.temperature_1 < 2 ^ 32
  pub encoder_2_fits : r.encoder_2 < 2 ^ 32
  pub velocity_2_fits : r.velocity_2 < 2 ^ 32
  pub current_2_d_fits : r.current_2_d < 2 ^ 32
  pub current_2_q_fits : r.current_2_q < 2 ^ 32
  pub current_2_u_fits : r.current_2_u < 2 ^ 32
  pub current_2_v_fits : r.current_2_v < 2 ^ 32
  pub current_2_w_fits : r.current_2_w < 2 ^ 32
  pub voltage_2_fits : r.voltage_2 < 2 ^ 32
  pub voltage_2_u_fits : r.voltage_2_u < 2 ^ 32
  pub voltage_2_v_fits : r.voltage_2_v < 2 ^ 32
  pub voltage_2_w_fits : r.voltage_2_w < 2 ^ 32
  pub temperature_2_fits : r.temperature_2 < 2 ^ 32
  pub encoder_pivot_fits : r.encoder_pivot < 2 ^ 32
  pub velocity_pivot_fits : r.velocity_pivot < 2 ^ 32
  pub voltage_bus_fits : r.voltage_bus < 2 ^ 32
  pub imu_ts_fits : r.imu_ts < 2 ^ 64
  pub accel_x_fits : r.accel_x < 2 ^ 32
  pub accel_y_fits : r.accel_y < 2 ^ 32
  pub accel_z_fits : r.accel_z < 2 ^ 32
  pub gyro_x_fits : r.gyro_x < 2 ^ 32
  pub gyro_y_fits : r.gyro_y < 2 ^ 32
  pub gyro_z_fits : r.gyro_z < 2 ^ 32
  pub temperature_imu_fits : r.temperature_imu < 2 ^ 32
  pub pressure_fits : r.pressure < 2 ^ 32
  pub current_in_fits : r.current_in < 2 ^ 32

rx_of_bytes-wire : (r : RxPdo1) → RxFits r → rx_of_bytes (wire (rx_fields r)) ≡ r
unfolding rx_of_bytes
rx_of_bytes-wire r h = λ i. record {
  command1 = u16_at-le16 r.command1 h.command1_fits i;
  command2 = u16_at-le16 r.command2 h.command2_fits i;
  setpoint1 = u32_at-le32 r.setpoint1 h.setpoint1_fits i;
  setpoint2 = u32_at-le32 r.setpoint2 h.setpoint2_fits i;
  limit1_p = u32_at-le32 r.limit1_p h.limit1_p_fits i;
  limit1_n = u32_at-le32 r.limit1_n h.limit1_n_fits i;
  limit2_p = u32_at-le32 r.limit2_p h.limit2_p_fits i;
  limit2_n = u32_at-le32 r.limit2_n h.limit2_n_fits i;
  timestamp = u64_at-le64 r.timestamp h.timestamp_fits i;
}

tx_of_bytes-wire : (r : TxPdo1) → TxFits r → tx_of_bytes (wire (tx_fields r)) ≡ r
unfolding tx_of_bytes
tx_of_bytes-wire r h = λ i. record {
  status1 = u16_at-le16 r.status1 h.status1_fits i;
  status2 = u16_at-le16 r.status2 h.status2_fits i;
  sensor_ts = u64_at-le64 r.sensor_ts h.sensor_ts_fits i;
  setpoint_ts = u64_at-le64 r.setpoint_ts h.setpoint_ts_fits i;
  encoder_1 = u32_at-le32 r.encoder_1 h.encoder_1_fits i;
  velocity_1 = u32_at-le32 r.velocity_1 h.velocity_1_fits i;
  current_1_d = u32_at-le32 r.current_1_d h.current_1_d_fits i;
  current_1_q = u32_at-le32 r.current_1_q h.current_1_q_fits i;
  current_1_u = u32_at-le32 r.current_1_u h.current_1_u_fits i;
  current_1_v = u32_at-le32 r.current_1_v h.current_1_v_fits i;
  current_1_w = u32_at-le32 r.current_1_w h.current_1_w_fits i;
  voltage_1 = u32_at-le32 r.voltage_1 h.voltage_1_fits i;
  voltage_1_u = u32_at-le32 r.voltage_1_u h.voltage_1_u_fits i;
  voltage_1_v = u32_at-le32 r.voltage_1_v h.voltage_1_v_fits i;
  voltage_1_w = u32_at-le32 r.voltage_1_w h.voltage_1_w_fits i;
  temperature_1 = u32_at-le32 r.temperature_1 h.temperature_1_fits i;
  encoder_2 = u32_at-le32 r.encoder_2 h.encoder_2_fits i;
  velocity_2 = u32_at-le32 r.velocity_2 h.velocity_2_fits i;
  current_2_d = u32_at-le32 r.current_2_d h.current_2_d_fits i;
  current_2_q = u32_at-le32 r.current_2_q h.current_2_q_fits i;
  current_2_u = u32_at-le32 r.current_2_u h.current_2_u_fits i;
  current_2_v = u32_at-le32 r.current_2_v h.current_2_v_fits i;
  current_2_w = u32_at-le32 r.current_2_w h.current_2_w_fits i;
  voltage_2 = u32_at-le32 r.voltage_2 h.voltage_2_fits i;
  voltage_2_u = u32_at-le32 r.voltage_2_u h.voltage_2_u_fits i;
  voltage_2_v = u32_at-le32 r.voltage_2_v h.voltage_2_v_fits i;
  voltage_2_w = u32_at-le32 r.voltage_2_w h.voltage_2_w_fits i;
  temperature_2 = u32_at-le32 r.temperature_2 h.temperature_2_fits i;
  encoder_pivot = u32_at-le32 r.encoder_pivot h.encoder_pivot_fits i;
  velocity_pivot = u32_at-le32 r.velocity_pivot h.velocity_pivot_fits i;
  voltage_bus = u32_at-le32 r.voltage_bus h.voltage_bus_fits i;
  imu_ts = u64_at-le64 r.imu_ts h.imu_ts_fits i;
  accel_x = u32_at-le32 r.accel_x h.accel_x_fits i;
  accel_y = u32_at-le32 r.accel_y h.accel_y_fits i;
  accel_z = u32_at-le32 r.accel_z h.accel_z_fits i;
  gyro_x = u32_at-le32 r.gyro_x h.gyro_x_fits i;
  gyro_y = u32_at-le32 r.gyro_y h.gyro_y_fits i;
  gyro_z = u32_at-le32 r.gyro_z h.gyro_z_fits i;
  temperature_imu = u32_at-le32 r.temperature_imu h.temperature_imu_fits i;
  pressure = u32_at-le32 r.pressure h.pressure_fits i;
  current_in = u32_at-le32 r.current_in h.current_in_fits i;
}

copy_data_steps :
    (s : KeloDriveSlave) (outputs inputs : List ℕ) {o i : List ℕ}
    → memcpy rx_size outputs ≡ some o
    → memcpy tx_size inputs ≡ some i
    → copy_data s outputs inputs ≡ some (record s { rx = rx_of_bytes o; tx = tx_of_bytes i })
unfolding copy_data
copy_data_steps s outputs inputs p q = rw (p, q)

-- `copyData` stores exactly the two structs whose bytes stand at the front of the two buffers,
-- whatever bytes follow, for structs whose fields are in the range of their types.
pub copy_data-wire_drive :
    (s : KeloDriveSlave) (r : RxPdo1) (t : TxPdo1) (rx_rest tx_rest : List ℕ)
    → RxFits r
    → TxFits t
    → copy_data s (wire (rx_fields r) ++ rx_rest) (wire (tx_fields t) ++ tx_rest)
      ≡ some (record { rx = r; tx = t })
copy_data-wire_drive s r t rx_rest tx_rest hr ht =
    copy_data_steps s (wire (rx_fields r) ++ rx_rest) (wire (tx_fields t) ++ tx_rest)
      (memcpy-append (wire (rx_fields r)) rx_rest) (memcpy-append (wire (tx_fields t)) tx_rest)
    ∙ (λ i. some (record { rx = rx_of_bytes-wire r hr i; tx = tx_of_bytes-wire t ht i }))
