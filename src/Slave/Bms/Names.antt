-- ===== src/Slave/Bms/Names.antt =====
-- The tables of names and units in src/kelo_bms_slave.cpp.
use kddv.Base.{List, [], ◌∷◌}
use kddv.Text.{Text, text}

unfoldable pub tx_variables : List Text
tx_variables =
    text "status"
    ∷ text "imu_ts"
    ∷ text "accel_x"
    ∷ text "accel_y"
    ∷ text "accel_z"
    ∷ text "gyro_x"
    ∷ text "gyro_y"
    ∷ text "gyro_z"
    ∷ text "imu_temperature"
    ∷ text "pressure"
    ∷ text "chargeport_voltage"
    ∷ text "enable_voltage"
    ∷ text "neopixel_voltage"
    ∷ text "bus_voltage"
    ∷ text "id1"
    ∷ text "status1"
    ∷ text "voltage1"
    ∷ text "current1"
    ∷ text "soc1"
    ∷ text "temperature1"
    ∷ text "cycles1"
    ∷ text "id2"
    ∷ text "status2"
    ∷ text "voltage2"
    ∷ text "current2"
    ∷ text "soc2"
    ∷ text "temperature2"
    ∷ text "cycles2"
    ∷ []

unfoldable pub tx_units : List Text
tx_units =
    text ""
    ∷ text "[ns]"
    ∷ text "[m/s^2]"
    ∷ text "[m/s^2]"
    ∷ text "[m/s^2]"
    ∷ text "[rad/s]"
    ∷ text "[rad/s]"
    ∷ text "[rad/s]"
    ∷ text "[K]"
    ∷ text "[Pa]"
    ∷ text "[V]"
    ∷ text "[V]"
    ∷ text "[V]"
    ∷ text "[V]"
    ∷ text ""
    ∷ text ""
    ∷ text "[V]"
    ∷ text "[A]"
    ∷ text ""
    ∷ text "[K]"
    ∷ text ""
    ∷ text ""
    ∷ text ""
    ∷ text "[V]"
    ∷ text "[A]"
    ∷ text ""
    ∷ text "[K]"
    ∷ text ""
    ∷ []

unfoldable pub rx_variables : List Text
rx_variables =
    text "command"
    ∷ text "bms1_command"
    ∷ text "bms2_command"
    ∷ text "neopixel_range1"
    ∷ text "neopixel_color1"
    ∷ text "neopixel_range2"
    ∷ text "neopixel_color2"
    ∷ []

unfoldable pub rx_units : List Text
rx_units = text "" ∷ text "" ∷ text "" ∷ text "" ∷ text "" ∷ text "" ∷ text "" ∷ []
