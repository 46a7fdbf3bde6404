-- ===== src/Slave/Bms/Pdo.antt =====
-- The process data of src/kelo_bms_slave.cpp (include/KeloEcPd.h): the packed structs, in the order of their
-- declarations. A `float` is its bit pattern.
use kddv.Base.{ℕ, List}
use kddv.Memory.{u16_at, u32_at, u64_at}

pub record EcPdRx : Type 0 where
  pub command : ℕ
  pub bms1_command : ℕ
  pub bms2_command : ℕ
  pub neopixel_range1 : ℕ
  pub neopixel_color1 : ℕ
  pub neopixel_range2 : ℕ
  pub neopixel_color2 : ℕ

pub record EcPdTx : Type 0 where
  pub status : ℕ
  pub imu_ts : ℕ
  pub accel_x : ℕ
  pub accel_y : ℕ
  pub accel_z : ℕ
  pub gyro_x : ℕ
  pub gyro_y : ℕ
  pub gyro_z : ℕ
  pub imu_temperature : ℕ
  pub pressure : ℕ
  pub chargeport_voltage : ℕ
  pub enable_voltage : ℕ
  pub neopixel_voltage : ℕ
  pub bus_voltage : ℕ
  pub id1 : ℕ
  pub status1 : ℕ
  pub voltage1 : ℕ
  pub current1 : ℕ
  pub soc1 : ℕ
  pub temperature1 : ℕ
  pub cycles1 : ℕ
  pub id2 : ℕ
  pub status2 : ℕ
  pub voltage2 : ℕ
  pub current2 : ℕ
  pub soc2 : ℕ
  pub temperature2 : ℕ
  pub cycles2 : ℕ

abbrev pub rx_size : ℕ
rx_size = 20

-- The struct that `memcpy` leaves behind.
unfoldable pub rx_of_bytes : List ℕ → EcPdRx
rx_of_bytes bytes = record {
  command = u32_at bytes 0;
  bms1_command = u16_at bytes 4;
  bms2_command = u16_at bytes 6;
  neopixel_range1 = u16_at bytes 8;
  neopixel_color1 = u32_at bytes 10;
  neopixel_range2 = u16_at bytes 14;
  neopixel_color2 = u32_at bytes 16;
}

abbrev pub tx_size : ℕ
tx_size = 112

-- The struct that `memcpy` leaves behind.
unfoldable pub tx_of_bytes : List ℕ → EcPdTx
tx_of_bytes bytes = record {
  status = u32_at bytes 0;
  imu_ts = u64_at bytes 4;
  accel_x = u32_at bytes 12;
  accel_y = u32_at bytes 16;
  accel_z = u32_at bytes 20;
  gyro_x = u32_at bytes 24;
  gyro_y = u32_at bytes 28;
  gyro_z = u32_at bytes 32;
  imu_temperature = u32_at bytes 36;
  pressure = u32_at bytes 40;
  chargeport_voltage = u32_at bytes 44;
  enable_voltage = u32_at bytes 48;
  neopixel_voltage = u32_at bytes 52;
  bus_voltage = u32_at bytes 56;
  id1 = u32_at bytes 60;
  status1 = u16_at bytes 64;
  voltage1 = u32_at bytes 66;
  current1 = u32_at bytes 70;
  soc1 = u32_at bytes 74;
  temperature1 = u32_at bytes 78;
  cycles1 = u32_at bytes 82;
  id2 = u32_at bytes 86;
  status2 = u16_at bytes 90;
  voltage2 = u32_at bytes 92;
  current2 = u32_at bytes 96;
  soc2 = u32_at bytes 100;
  temperature2 = u32_at bytes 104;
  cycles2 = u32_at bytes 108;
}
