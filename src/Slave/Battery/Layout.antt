-- ===== src/Slave/Battery/Layout.antt =====
-- The layout of the packed structs of include/RobileMasterBattery.h, stated from the sender's side: the fields
-- in the order of their declarations, little-endian, with nothing between them.
use kddv.Base.{ℕ, ◌<◌, ◌^◌, ◌≡◌, some, List, [], ◌∷◌, ◌++◌, ◌∙◌}
use kddv.Memory.{memcpy, memcpy-append, u16_at-le16, u32_at-le32, u64_at-le64}
use kddv.Scalar.{Scalar, u16, u32, u64, f32, wire}
use kddv.Slave.Battery.Pdo.{
  RobileMasterBatteryProcessDataOutput, RobileMasterBatteryProcessDataInput, rx_size, tx_size,
  rx_of_bytes, tx_of_bytes,
}
use kddv.Slave.Battery.{RobileBatterySlave, copy_data}

abbrev pub rx_fields : RobileMasterBatteryProcessDataOutput → List Scalar
rx_fields r = u32 r.command1 ∷ u32 r.command2 ∷ u16 r.shutdown ∷ u16 r.pwr_device_id ∷ []

abbrev pub tx_fields : RobileMasterBatteryProcessDataInput → List Scalar
tx_fields r =
    u64 r.time_stamp
    ∷ u16 r.status
    ∷ u16 r.error
    ∷ u16 r.warning
    ∷ f32 r.output_current
    ∷ f32 r.output_voltage
    ∷ f32 r.output_power
    ∷ f32 r.aux_port_current
    ∷ f32 r.generic_data1
    ∷ u32 r.generic_data2
    ∷ u16 r.bmsm_pwr_device_id
    ∷ u16 r.bmsm_status
    ∷ f32 r.bmsm_voltage
    ∷ f32 r.bmsm_current
    ∷ f32 r.bmsm_temperature
    ∷ u16 r.bmsm_soc
    ∷ u32 r.bmsm_sn
    ∷ u32 r.bmsm_bat_data1
    ∷ f32 r.bmsm_bat_data2
    ∷ []

-- Every field holds a value of its C type.
pub record RxFits (r : RobileMasterBatteryProcessDataOutput) : Type 0 where
  pub command1_fits : r.command1 < 2 ^ 32
  pub command2_fits : r.command2 < 2 ^ 32
  pub shutdown_fits : r.shutdown < 2 ^ 16
  pub pwr_device_id_fits : r.pwr_device_id < 2 ^ 16

-- Every field holds a value of its C type.
pub record TxFits (r : RobileMasterBatteryProcessDataInput) : Type 0 where
  pub time_stamp_fits : r.time_stamp < 2 ^ 64
  pub status_fits : r.status < 2 ^ 16
  pub error_fits : r.error < 2 ^ 16
  pub warning_fits : r.warning < 2 ^ 16
  pub output_current_fits : r.output_current < 2 ^ 32
  pub output_voltage_fits : r.output_voltage < 2 ^ 32
  pub output_power_fits : r.output_power < 2 ^ 32
  pub aux_port_current_fits : r.aux_port_current < 2 ^ 32
  pub generic_data1_fits : r.generic_data1 < 2 ^ 32
  pub generic_data2_fits : r.generic_data2 < 2 ^ 32
  pub bmsm_pwr_device_id_fits : r.bmsm_pwr_device_id < 2 ^ 16
  pub bmsm_status_fits : r.bmsm_status < 2 ^ 16
  pub bmsm_voltage_fits : r.bmsm_voltage < 2 ^ 32
  pub bmsm_current_fits : r.bmsm_current < 2 ^ 32
  pub bmsm_temperature_fits : r.bmsm_temperature < 2 ^ 32
  pub bmsm_soc_fits : r.bmsm_soc < 2 ^ 16
  pub bmsm_sn_fits : r.bmsm_sn < 2 ^ 32
  pub bmsm_bat_data1_fits : r.bmsm_bat_data1 < 2 ^ 32
  pub bmsm_bat_data2_fits : r.bmsm_bat_data2 < 2 ^ 32

rx_of_bytes-wire :
    (r : RobileMasterBatteryProcessDataOutput) → RxFits r → rx_of_bytes (wire (rx_fields r)) ≡ r
unfolding rx_of_bytes
rx_of_bytes-wire r h = λ i. record {
  command1 = u32_at-le32 r.command1 h.command1_fits i;
  command2 = u32_at-le32 r.command2 h.command2_fits i;
  shutdown = u16_at-le16 r.shutdown h.shutdown_fits i;
  pwr_device_id = u16_at-le16 r.pwr_device_id h.pwr_device_id_fits i;
}

tx_of_bytes-wire :
    (r : RobileMasterBatteryProcessDataInput) → TxFits r → tx_of_bytes (wire (tx_fields r)) ≡ r
unfolding tx_of_bytes
tx_of_bytes-wire r h = λ i. record {
  time_stamp = u64_at-le64 r.time_stamp h.time_stamp_fits i;
  status = u16_at-le16 r.status h.status_fits i;
  error = u16_at-le16 r.error h.error_fits i;
  warning = u16_at-le16 r.warning h.warning_fits i;
  output_current = u32_at-le32 r.output_current h.output_current_fits i;
  output_voltage = u32_at-le32 r.output_voltage h.output_voltage_fits i;
  output_power = u32_at-le32 r.output_power h.output_power_fits i;
  aux_port_current = u32_at-le32 r.aux_port_current h.aux_port_current_fits i;
  generic_data1 = u32_at-le32 r.generic_data1 h.generic_data1_fits i;
  generic_data2 = u32_at-le32 r.generic_data2 h.generic_data2_fits i;
  bmsm_pwr_device_id = u16_at-le16 r.bmsm_pwr_device_id h.bmsm_pwr_device_id_fits i;
  bmsm_status = u16_at-le16 r.bmsm_status h.bmsm_status_fits i;
  bmsm_voltage = u32_at-le32 r.bmsm_voltage h.bmsm_voltage_fits i;
  bmsm_current = u32_at-le32 r.bmsm_current h.bmsm_current_fits i;
  bmsm_temperature = u32_at-le32 r.bmsm_temperature h.bmsm_temperature_fits i;
  bmsm_soc = u16_at-le16 r.bmsm_soc h.bmsm_soc_fits i;
  bmsm_sn = u32_at-le32 r.bmsm_sn h.bmsm_sn_fits i;
  bmsm_bat_data1 = u32_at-le32 r.bmsm_bat_data1 h.bmsm_bat_data1_fits i;
  bmsm_bat_data2 = u32_at-le32 r.bmsm_bat_data2 h.bmsm_bat_data2_fits i;
}

copy_data_steps :
    (s : RobileBatterySlave) (outputs inputs : List ℕ) {o i : List ℕ}
    → memcpy rx_size outputs ≡ some o
    → memcpy tx_size inputs ≡ some i
    → copy_data s outputs inputs ≡ some (record s { rx = rx_of_bytes o; tx = tx_of_bytes i })
unfolding copy_data
copy_data_steps s outputs inputs p q = rw (p, q)

-- `copyData` stores exactly the two structs whose bytes stand at the front of the two buffers,
-- whatever bytes follow, for structs whose fields are in the range of their types.
pub copy_data-wire_battery :
    (s : RobileBatterySlave) (r : RobileMasterBatteryProcessDataOutput)
    (t : RobileMasterBatteryProcessDataInput) (rx_rest tx_rest : List ℕ)
    → RxFits r
    → TxFits t
    → copy_data s (wire (rx_fields r) ++ rx_rest) (wire (tx_fields t) ++ tx_rest)
      ≡ some (record { rx = r; tx = t })
copy_data-wire_battery s r t rx_rest tx_rest hr ht =
    copy_data_steps s (wire (rx_fields r) ++ rx_rest) (wire (tx_fields t) ++ tx_rest)
      (memcpy-append (wire (rx_fields r)) rx_rest) (memcpy-append (wire (tx_fields t)) tx_rest)
    ∙ (λ i. some (record { rx = rx_of_bytes-wire r hr i; tx = tx_of_bytes-wire t ht i }))
