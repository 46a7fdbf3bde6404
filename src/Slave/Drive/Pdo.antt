-- ===== src/Slave/Drive/Pdo.antt =====
-- The process data of src/kelo_drive_slave.cpp (include/KeloDriveAPI.h): the packed structs, in the order of their
-- declarations. A `float` is its bit pattern.
use kddv.Base.{ℕ, List}
use kddv.Memory.{u16_at, u32_at, u64_at}

pub record RxPdo1 : Type 0 where
  pub command1 : ℕ
  pub command2 : ℕ
  pub setpoint1 : ℕ
  pub setpoint2 : ℕ
  pub limit1_p : ℕ
  pub limit1_n : ℕ
  pub limit2_p : ℕ
  pub limit2_n : ℕ
  pub timestamp : ℕ

pub record TxPdo1 : Type 0 where
  pub status1 : ℕ
  pub status2 : ℕ
  pub sensor_ts : ℕ
  pub setpoint_ts : ℕ
  pub encoder_1 : ℕ
  pub velocity_1 : ℕ
  pub current_1_d : ℕ
  pub current_1_q : ℕ
  pub current_1_u : ℕ
  pub current_1_v : ℕ
  pub current_1_w : ℕ
  pub voltage_1 : ℕ
  pub voltage_1_u : ℕ
  pub voltage_1_v : ℕ
  pub voltage_1_w : ℕ
  pub temperature_1 : ℕ
  pub encoder_2 : ℕ
  pub velocity_2 : ℕ
  pub current_2_d : ℕ
  pub current_2_q : ℕ
  pub current_2_u : ℕ
  pub current_2_v : ℕ
  pub current_2_w : ℕ
  pub voltage_2 : ℕ
  pub voltage_2_u : ℕ
  pub voltage_2_v : ℕ
  pub voltage_2_w : ℕ
  pub temperature_2 : ℕ
  pub encoder_pivot : ℕ
  pub velocity_pivot : ℕ
  pub voltage_bus : ℕ
  pub imu_ts : ℕ
  pub accel_x : ℕ
  pub accel_y : ℕ
  pub accel_z : ℕ
  pub gyro_x : ℕ
  pub gyro_y : ℕ
  pub gyro_z : ℕ
  pub temperature_imu : ℕ
  pub pressure : ℕ
  pub current_in : ℕ

abbrev pub rx_size : ℕ
rx_size = 36

-- The struct that `memcpy` leaves behind.
unfoldable pub rx_of_bytes : List ℕ → RxPdo1
rx_of_bytes bytes = record {
  command1 = u16_at bytes 0;
  command2 = u16_at bytes 2;
  setpoint1 = u32_at bytes 4;
  setpoint2 = u32_at bytes 8;
  limit1_p = u32_at bytes 12;
  limit1_n = u32_at bytes 16;
  limit2_p = u32_at bytes 20;
  limit2_n = u32_at bytes 24;
  timestamp = u64_at bytes 28;
}

abbrev pub tx_size : ℕ
tx_size = 172

-- The struct that `memcpy` leaves behind.
unfoldable pub tx_of_bytes : List ℕ → TxPdo1
tx_of_bytes bytes = record {
  status1 = u16_at bytes 0;
  status2 = u16_at bytes 2;
  sensor_ts = u64_at bytes 4;
  setpoint_ts = u64_at bytes 12;
  encoder_1 = u32_at bytes 20;
  velocity_1 = u32_at bytes 24;
  current_1_d = u32_at bytes 28;
  current_1_q = u32_at bytes 32;
  current_1_u = u32_at bytes 36;
  current_1_v = u32_at bytes 40;
  current_1_w = u32_at bytes 44;
  voltage_1 = u32_at bytes 48;
  voltage_1_u = u32_at bytes 52;
  voltage_1_v = u32_at bytes 56;
  voltage_1_w = u32_at bytes 60;
  temperature_1 = u32_at bytes 64;
  encoder_2 = u32_at bytes 68;
  velocity_2 = u32_at bytes 72;
  current_2_d = u32_at bytes 76;
  current_2_q = u32_at bytes 80;
  current_2_u = u32_at bytes 84;
  current_2_v = u32_at bytes 88;
  current_2_w = u32_at bytes 92;
  voltage_2 = u32_at bytes 96;
  voltage_2_u = u32_at bytes 100;
  voltage_2_v = u32_at bytes 104;
  voltage_2_w = u32_at bytes 108;
  temperature_2 = u32_at bytes 112;
  encoder_pivot = u32_at bytes 116;
  velocity_pivot = u32_at bytes 120;
  voltage_bus = u32_at bytes 124;
  imu_ts = u64_at bytes 128;
  accel_x = u32_at bytes 136;
  accel_y = u32_at bytes 140;
  accel_z = u32_at bytes 144;
  gyro_x = u32_at bytes 148;
  gyro_y = u32_at bytes 152;
  gyro_z = u32_at bytes 156;
  temperature_imu = u32_at bytes 160;
  pressure = u32_at bytes 164;
  current_in = u32_at bytes 168;
}
