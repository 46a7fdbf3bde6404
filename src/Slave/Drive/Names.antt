-- ===== src/Slave/Drive/Names.antt =====
-- The tables of names and units in src/kelo_drive_slave.cpp.
use kddv.Base.{List, [], ◌∷◌}
use kddv.Text.{Text, text}

unfoldable pub tx_variables : List Text
tx_variables =
    text "status1"
    ∷ text "status2"
    ∷ text "sensor_ts"
    ∷ text "setpoint_ts"
    ∷ text "encoder_1"
    ∷ text "velocity_1"
    ∷ text "current_1_d"
    ∷ text "current_1_q"
    ∷ text "current_1_u"
    ∷ text "current_1_v"
    ∷ text "current_1_w"
    ∷ text "voltage_1"
    ∷ text "voltage_1_u"
    ∷ text "voltage_1_v"
    ∷ text "voltage_1_w"
    ∷ text "temperature_1"
    ∷ text "encoder_2"
    ∷ text "velocity_2"
    ∷ text "current_2_d"
    ∷ text "current_2_q"
    ∷ text "current_2_u"
    ∷ text "current_2_v"
    ∷ text "current_2_w"
    ∷ text "voltage_2"
    ∷ text "voltage_2_u"
    ∷ text "voltage_2_v"
    ∷ text "voltage_2_w"
    ∷ text "temperature_2"
    ∷ text "encoder_pivot"
    ∷ text "velocity_pivot"
    ∷ text "voltage_bus"
    ∷ text "imu_ts"
    ∷ text "accel_x"
    ∷ text "accel_y"
    ∷ text "accel_z"
    ∷ text "gyro_x"
    ∷ text "gyro_y"
    ∷ text "gyro_z"
    ∷ text "temperature_imu"
    ∷ text "pressure"
    ∷ text "current_in"
    ∷ []

unfoldable pub tx_units : List Text
tx_units =
    text ""
    ∷ text ""
    ∷ text "[ns]"
    ∷ text "[ns]"
    ∷ text "[rad]"
    ∷ text "[rad/s]"
    ∷ text "[A]"
    ∷ text "[A]"
    ∷ text "[A]"
    ∷ text "[A]"
    ∷ text "[A]"
    ∷ text "[V]"
    ∷ text "[V]"
    ∷ text "[V]"
    ∷ text "[V]"
    ∷ text "[K]"
    ∷ text "[rad]"
    ∷ text "[rad/s]"
    ∷ text "[A]"
    ∷ text "[A]"
    ∷ text "[A]"
    ∷ text "[A]"
    ∷ text "[A]"
    ∷ text "[V]"
    ∷ text "[V]"
    ∷ text "[V]"
    ∷ text "[V]"
    ∷ text "[K]"
    ∷ text "[rad]"
    ∷ text "[rad/s]"
    ∷ text "[V]"
    ∷ text "[ns]"
    ∷ text "[m/s^2]"
    ∷ text "[m/s^2]"
    ∷ text "[m/s^2]"
    ∷ text "[rad/s]"
    ∷ text "[rad/s]"
    ∷ text "[rad/s]"
    ∷ text "[K]"
    ∷ text "[Pa]"
    ∷ text "[A]"
    ∷ []

unfoldable pub rx_variables : List Text
rx_variables =
    text "command1"
    ∷ text "command2"
    ∷ text "setpoint1"
    ∷ text "setpoint2"
    ∷ text "limit1_p"
    ∷ text "limit1_n"
    ∷ text "limit2_p"
    ∷ text "limit2_n"
    ∷ text "timestamp"
    ∷ []

unfoldable pub rx_units : List Text
rx_units =
    text "" ∷ text "" ∷ text "" ∷ text "" ∷ text "" ∷ text "" ∷ text "" ∷ text "" ∷ text "[ns]" ∷ []
