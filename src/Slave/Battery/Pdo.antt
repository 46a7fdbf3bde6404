-- ===== src/Slave/Battery/Pdo.antt =====
-- The process data of src/robile_battery_slave.cpp (include/RobileMasterBattery.h): the packed structs, in the order of their
-- declarations. A `float` is its bit pattern.
use kddv.Base.{ℕ, List}
use kddv.Memory.{u16_at, u32_at, u64_at}

pub record RobileMasterBatteryProcessDataOutput : Type 0 where
  pub command1 : ℕ
  pub command2 : ℕ
  pub shutdown : ℕ
  pub pwr_device_id : ℕ

pub record RobileMasterBatteryProcessDataInput : Type 0 where
  pub time_stamp : ℕ
  pub status : ℕ
  pub error : ℕ
  pub warning : ℕ
  pub output_current : ℕ
  pub output_voltage : ℕ
  pub output_power : ℕ
  pub aux_port_current : ℕ
  pub generic_data1 : ℕ
  pub generic_data2 : ℕ
  pub bmsm_pwr_device_id : ℕ
  pub bmsm_status : ℕ
  pub bmsm_voltage : ℕ
  pub bmsm_current : ℕ
  pub bmsm_temperature : ℕ
  pub bmsm_soc : ℕ
  pub bmsm_sn : ℕ
  pub bmsm_bat_data1 : ℕ
  pub bmsm_bat_data2 : ℕ

abbrev pub rx_size : ℕ
rx_size = 12

-- The struct that `memcpy` leaves behind.
unfoldable pub rx_of_bytes : List ℕ → RobileMasterBatteryProcessDataOutput
rx_of_bytes bytes = record {
  command1 = u32_at bytes 0;
  command2 = u32_at bytes 4;
  shutdown = u16_at bytes 8;
  pwr_device_id = u16_at bytes 10;
}

abbrev pub tx_size : ℕ
tx_size = 68

-- The struct that `memcpy` leaves behind.
unfoldable pub tx_of_bytes : List ℕ → RobileMasterBatteryProcessDataInput
tx_of_bytes bytes = record {
  time_stamp = u64_at bytes 0;
  status = u16_at bytes 8;
  error = u16_at bytes 10;
  warning = u16_at bytes 12;
  output_current = u32_at bytes 14;
  output_voltage = u32_at bytes 18;
  output_power = u32_at bytes 22;
  aux_port_current = u32_at bytes 26;
  generic_data1 = u32_at bytes 30;
  generic_data2 = u32_at bytes 34;
  bmsm_pwr_device_id = u16_at bytes 38;
  bmsm_status = u16_at bytes 40;
  bmsm_voltage = u32_at bytes 42;
  bmsm_current = u32_at bytes 46;
  bmsm_temperature = u32_at bytes 50;
  bmsm_soc = u16_at bytes 54;
  bmsm_sn = u32_at bytes 56;
  bmsm_bat_data1 = u32_at bytes 60;
  bmsm_bat_data2 = u32_at bytes 64;
}
