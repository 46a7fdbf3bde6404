-- ===== src/Slave/Bms/Layout.antt =====
-- The layout of the packed structs of include/KeloEcPd.h, stated from the sender's side: the fields
-- in the order of their declarations, little-endian, with nothing between them.
use kddv.Base.{ℕ, ◌<◌, ◌^◌, ◌≡◌, some, List, [], ◌∷◌, ◌++◌, ◌∙◌}
use kddv.Memory.{memcpy, memcpy-append, u16_at-le16, u32_at-le32, u64_at-le64}
use kddv.Scalar.{Scalar, u16, u32, u64, f32, wire}
use kddv.Slave.Bms.Pdo.{EcPdRx, EcPdTx, rx_size, tx_size, rx_of_bytes, tx_of_bytes}
use kddv.Slave.Bms.{KeloBmsSlave, copy_data}

abbrev pub rx_fields : EcPdRx → List Scalar
rx_fields r =
    u32 r.command
    ∷ u16 r.bms1_command
    ∷ u16 r.bms2_command
    ∷ u16 r.neopixel_range1
    ∷ u32 r.neopixel_color1
    ∷ u16 r.neopixel_range2
    ∷ u32 r.neopixel_color2
    ∷ []

abbrev pub tx_fields : EcPdTx → List Scalar
tx_fields r =
    u32 r.status
    ∷ u64 r.imu_ts
    ∷ f32 r.accel_x
    ∷ f32 r.accel_y
    ∷ f32 r.accel_z
    ∷ f32 r.gyro_x
    ∷ f32 r.gyro_y
    ∷ f32 r.gyro_z
    ∷ f32 r.imu_temperature
    ∷ f32 r.pressure
    ∷ f32 r.chargeport_voltage
    ∷ f32 r.enable_voltage
    ∷ f32 r.neopixel_voltage
    ∷ f32 r.bus_voltage
    ∷ u32 r.id1
    ∷ u16 r.status1
    ∷ f32 r.voltage1
    ∷ f32 r.current1
    ∷ f32 r.soc1
    ∷ f32 r.temperature1
    ∷ f32 r.cycles1
    ∷ u32 r.id2
    ∷ u16 r.status2
    ∷ f32 r.voltage2
    ∷ f32 r.current2
    ∷ f32 r.soc2
    ∷ f32 r.temperature2
    ∷ f32 r.cycles2
    ∷ []

-- Every field holds a value of its C type.
pub record RxFits (r : EcPdRx) : Type 0 where
  pub command_fits : r.command < 2 ^ 32
  pub bms1_command_fits : r.bms1_command < 2 ^ 16
  pub bms2_command_fits : r.bms2_command < 2 ^ 16
  pub neopixel_range1_fits : r.neopixel_range1 < 2 ^ 16
  pub neopixel_color1_fits : r.neopixel_color1 < 2 ^ 32
  pub neopixel_range2_fits : r.neopixel_range2 < 2 ^ 16
  pub neopixel_color2_fits : r.neopixel_color2 < 2 ^ 32

-- Every field holds a value of its C type.
pub record TxFits (r : EcPdTx) : Type 0 where
  pub status_fits : r.status < 2 ^ 32
  pub imu_ts_fits : r.imu_ts < 2 ^ 64
  pub accel_x_fits : r.accel_x < 2 ^ 32
  pub accel_y_fits : r.accel_y < 2 ^ 32
  pub accel_z_fits : r.accel_z < 2 ^ 32
  pub gyro_x_fits : r.gyro_x < 2 ^ 32
  pub gyro_y_fits : r.gyro_y < 2 ^ 32
  pub gyro_z_fits : r.gyro_z < 2 ^ 32
  pub imu_temperature_fits : r.imu_temperature < 2 ^ 32
  pub pressure_fits : r.pressure < 2 ^ 32
  pub chargeport_voltage_fits : r.chargeport_voltage < 2 ^ 32
  pub enable_voltage_fits : r.enable_voltage < 2 ^ 32
  pub neopixel_voltage_fits : r.neopixel_voltage < 2 ^ 32
  pub bus_voltage_fits : r.bus_voltage < 2 ^ 32
  pub id1_fits : r.id1 < 2 ^ 32
  pub status1_fits : r.status1 < 2 ^ 16
  pub voltage1_fits : r.voltage1 < 2 ^ 32
  pub current1_fits : r.current1 < 2 ^ 32
  pub soc1_fits : r.soc1 < 2 ^ 32
  pub temperature1_fits : r.temperature1 < 2 ^ 32
  pub cycles1_fits : r.cycles1 < 2 ^ 32
  pub id2_fits : r.id2 < 2 ^ 32
  pub status2_fits : r.status2 < 2 ^ 16
  pub voltage2_fits : r.voltage2 < 2 ^ 32
  pub current2_fits : r.current2 < 2 ^ 32
  pub soc2_fits : r.soc2 < 2 ^ 32
  pub temperature2_fits : r.temperature2 < 2 ^ 32
  pub cycles2_fits : r.cycles2 < 2 ^ 32

rx_of_bytes-wire : (r : EcPdRx) → RxFits r → rx_of_bytes (wire (rx_fields r)) ≡ r
unfolding rx_of_bytes
rx_of_bytes-wire r h = λ i. record {
  command = u32_at-le32 r.command h.command_fits i;
  bms1_command = u16_at-le16 r.bms1_command h.bms1_command_fits i;
  bms2_command = u16_at-le16 r.bms2_command h.bms2_command_fits i;
  neopixel_range1 = u16_at-le16 r.neopixel_range1 h.neopixel_range1_fits i;
  neopixel_color1 = u32_at-le32 r.neopixel_color1 h.neopixel_color1_fits i;
  neopixel_range2 = u16_at-le16 r.neopixel_range2 h.neopixel_range2_fits i;
  neopixel_color2 = u32_at-le32 r.neopixel_color2 h.neopixel_color2_fits i;
}

tx_of_bytes-wire : (r : EcPdTx) → TxFits r → tx_of_bytes (wire (tx_fields r)) ≡ r
unfolding tx_of_bytes
tx_of_bytes-wire r h = λ i. record {
  status = u32_at-le32 r.status h.status_fits i;
  imu_ts = u64_at-le64 r.imu_ts h.imu_ts_fits i;
  accel_x = u32_at-le32 r.accel_x h.accel_x_fits i;
  accel_y = u32_at-le32 r.accel_y h.accel_y_fits i;
  accel_z = u32_at-le32 r.accel_z h.accel_z_fits i;
  gyro_x = u32_at-le32 r.gyro_x h.gyro_x_fits i;
  gyro_y = u32_at-le32 r.gyro_y h.gyro_y_fits i;
  gyro_z = u32_at-le32 r.gyro_z h.gyro_z_fits i;
  imu_temperature = u32_at-le32 r.imu_temperature h.imu_temperature_fits i;
  pressure = u32_at-le32 r.pressure h.pressure_fits i;
  chargeport_voltage = u32_at-le32 r.chargeport_voltage h.chargeport_voltage_fits i;
  enable_voltage = u32_at-le32 r.enable_voltage h.enable_voltage_fits i;
  neopixel_voltage = u32_at-le32 r.neopixel_voltage h.neopixel_voltage_fits i;
  bus_voltage = u32_at-le32 r.bus_voltage h.bus_voltage_fits i;
  id1 = u32_at-le32 r.id1 h.id1_fits i;
  status1 = u16_at-le16 r.status1 h.status1_fits i;
  voltage1 = u32_at-le32 r.voltage1 h.voltage1_fits i;
  current1 = u32_at-le32 r.current1 h.current1_fits i;
  soc1 = u32_at-le32 r.soc1 h.soc1_fits i;
  temperature1 = u32_at-le32 r.temperature1 h.temperature1_fits i;
  cycles1 = u32_at-le32 r.cycles1 h.cycles1_fits i;
  id2 = u32_at-le32 r.id2 h.id2_fits i;
  status2 = u16_at-le16 r.status2 h.status2_fits i;
  voltage2 = u32_at-le32 r.voltage2 h.voltage2_fits i;
  current2 = u32_at-le32 r.current2 h.current2_fits i;
  soc2 = u32_at-le32 r.soc2 h.soc2_fits i;
  temperature2 = u32_at-le32 r.temperature2 h.temperature2_fits i;
  cycles2 = u32_at-le32 r.cycles2 h.cycles2_fits i;
}

copy_data_steps :
    (s : KeloBmsSlave) (outputs inputs : List ℕ) {o i : List ℕ}
    → memcpy rx_size outputs ≡ some o
    → memcpy tx_size inputs ≡ some i
    → copy_data s outputs inputs ≡ some (record s { rx = rx_of_bytes o; tx = tx_of_bytes i })
unfolding copy_data
copy_data_steps s outputs inputs p q = rw (p, q)

-- `copyData` stores exactly the two structs whose bytes stand at the front of the two buffers,
-- whatever bytes follow, for structs whose fields are in the range of their types.
pub copy_data-wire_bms :
    (s : KeloBmsSlave) (r : EcPdRx) (t : EcPdTx) (rx_rest tx_rest : List ℕ)
    → RxFits r
    → TxFits t
    → copy_data s (wire (rx_fields r) ++ rx_rest) (wire (tx_fields t) ++ tx_rest)
      ≡ some (record { rx = r; tx = t })
copy_data-wire_bms s r t rx_rest tx_rest hr ht =
    copy_data_steps s (wire (rx_fields r) ++ rx_rest) (wire (tx_fields t) ++ tx_rest)
      (memcpy-append (wire (rx_fields r)) rx_rest) (memcpy-append (wire (tx_fields t)) tx_rest)
    ∙ (λ i. some (record { rx = rx_of_bytes-wire r hr i; tx = tx_of_bytes-wire t ht i }))
