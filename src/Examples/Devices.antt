-- ===== src/Examples/Devices.antt =====
-- Devices with small values in their fields.

use kddv.Slave.Drive.{KeloDriveSlave}
use kddv.Slave.Battery.{RobileBatterySlave}
use kddv.Slave.Bms.{KeloBmsSlave}
use kddv.Source.{Uninitialised}

abbrev pub drive_memory : KeloDriveSlave
drive_memory = record {
  rx = record {
    command1 = 0;
    command2 = 0;
    setpoint1 = 0;
    setpoint2 = 0;
    limit1_p = 0;
    limit1_n = 0;
    limit2_p = 0;
    limit2_n = 0;
    timestamp = 0;
  };
  tx = record {
    status1 = 0;
    status2 = 0;
    sensor_ts = 0;
    setpoint_ts = 0;
    encoder_1 = 0;
    velocity_1 = 0;
    current_1_d = 0;
    current_1_q = 0;
    current_1_u = 0;
    current_1_v = 0;
    current_1_w = 0;
    voltage_1 = 0;
    voltage_1_u = 0;
    voltage_1_v = 0;
    voltage_1_w = 0;
    temperature_1 = 0;
    encoder_2 = 0;
    velocity_2 = 0;
    current_2_d = 0;
    current_2_q = 0;
    current_2_u = 0;
    current_2_v = 0;
    current_2_w = 0;
    voltage_2 = 0;
    voltage_2_u = 0;
    voltage_2_v = 0;
    voltage_2_w = 0;
    temperature_2 = 0;
    encoder_pivot = 0;
    velocity_pivot = 0;
    voltage_bus = 0;
    imu_ts = 0;
    accel_x = 0;
    accel_y = 0;
    accel_z = 0;
    gyro_x = 0;
    gyro_y = 0;
    gyro_z = 0;
    temperature_imu = 0;
    pressure = 0;
    current_in = 0;
  };
}

abbrev pub some_drive : KeloDriveSlave
some_drive = record {
  rx = record {
    command1 = 14;
    command2 = 21;
    setpoint1 = 28;
    setpoint2 = 35;
    limit1_p = 42;
    limit1_n = 49;
    limit2_p = 56;
    limit2_n = 63;
    timestamp = 70;
  };
  tx = record {
    status1 = 28;
    status2 = 35;
    sensor_ts = 42;
    setpoint_ts = 49;
    encoder_1 = 56;
    velocity_1 = 63;
    current_1_d = 70;
    current_1_q = 77;
    current_1_u = 84;
    current_1_v = 91;
    current_1_w = 98;
    voltage_1 = 105;
    voltage_1_u = 112;
    voltage_1_v = 119;
    voltage_1_w = 126;
    temperature_1 = 133;
    encoder_2 = 140;
    velocity_2 = 147;
    current_2_d = 154;
    current_2_q = 161;
    current_2_u = 168;
    current_2_v = 175;
    current_2_w = 182;
    voltage_2 = 189;
    voltage_2_u = 196;
    voltage_2_v = 203;
    voltage_2_w = 210;
    temperature_2 = 217;
    encoder_pivot = 224;
    velocity_pivot = 231;
    voltage_bus = 238;
    imu_ts = 245;
    accel_x = 252;
    accel_y = 259;
    accel_z = 266;
    gyro_x = 273;
    gyro_y = 280;
    gyro_z = 287;
    temperature_imu = 294;
    pressure = 301;
    current_in = 308;
  };
}

abbrev pub battery_memory : RobileBatterySlave
battery_memory = record {
  rx = record { command1 = 0; command2 = 0; shutdown = 0; pwr_device_id = 0 };
  tx = record {
    time_stamp = 0;
    status = 0;
    error = 0;
    warning = 0;
    output_current = 0;
    output_voltage = 0;
    output_power = 0;
    aux_port_current = 0;
    generic_data1 = 0;
    generic_data2 = 0;
    bmsm_pwr_device_id = 0;
    bmsm_status = 0;
    bmsm_voltage = 0;
    bmsm_current = 0;
    bmsm_temperature = 0;
    bmsm_soc = 0;
    bmsm_sn = 0;
    bmsm_bat_data1 = 0;
    bmsm_bat_data2 = 0;
  };
}

abbrev pub some_battery : RobileBatterySlave
some_battery = record {
  rx = record { command1 = 14; command2 = 21; shutdown = 28; pwr_device_id = 35 };
  tx = record {
    time_stamp = 28;
    status = 35;
    error = 42;
    warning = 49;
    output_current = 56;
    output_voltage = 63;
    output_power = 70;
    aux_port_current = 77;
    generic_data1 = 84;
    generic_data2 = 91;
    bmsm_pwr_device_id = 98;
    bmsm_status = 105;
    bmsm_voltage = 112;
    bmsm_current = 119;
    bmsm_temperature = 126;
    bmsm_soc = 133;
    bmsm_sn = 140;
    bmsm_bat_data1 = 147;
    bmsm_bat_data2 = 154;
  };
}

abbrev pub bms_memory : KeloBmsSlave
bms_memory = record {
  rx = record {
    command = 0;
    bms1_command = 0;
    bms2_command = 0;
    neopixel_range1 = 0;
    neopixel_color1 = 0;
    neopixel_range2 = 0;
    neopixel_color2 = 0;
  };
  tx = record {
    status = 0;
    imu_ts = 0;
    accel_x = 0;
    accel_y = 0;
    accel_z = 0;
    gyro_x = 0;
    gyro_y = 0;
    gyro_z = 0;
    imu_temperature = 0;
    pressure = 0;
    chargeport_voltage = 0;
    enable_voltage = 0;
    neopixel_voltage = 0;
    bus_voltage = 0;
    id1 = 0;
    status1 = 0;
    voltage1 = 0;
    current1 = 0;
    soc1 = 0;
    temperature1 = 0;
    cycles1 = 0;
    id2 = 0;
    status2 = 0;
    voltage2 = 0;
    current2 = 0;
    soc2 = 0;
    temperature2 = 0;
    cycles2 = 0;
  };
}

abbrev pub memory : Uninitialised
memory = record { drive = drive_memory; battery = battery_memory; bms = bms_memory }
