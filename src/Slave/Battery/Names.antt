-- ===== src/Slave/Battery/Names.antt =====
-- The tables of names and units in src/robile_battery_slave.cpp.
use kddv.Base.{List, [], ◌∷◌}
use kddv.Text.{Text, text}

unfoldable pub tx_variables : List Text
tx_variables =
    text "timestamp"
    ∷ text "status"
    ∷ text "error"
    ∷ text "warning"
    ∷ text "output_current"
    ∷ text "output_voltage"
    ∷ text "output_power"
    ∷ text "aux_port_current"
    ∷ text "generic_data1"
    ∷ text "generic_data2"
    ∷ text "bmsm_pwr_device_id"
    ∷ text "bmsm_status"
    ∷ text "bmsm_voltage"
    ∷ text "bmsm_current"
    ∷ text "bmsm_temperature"
    ∷ text "bmsm_soc"
    ∷ text "bmsm_sn"
    ∷ text "bmsm_bat_data1"
    ∷ text "bmsm_bat_data2"
    ∷ []

unfoldable pub tx_units : List Text
tx_units =
    text "[ms]"
    ∷ text ""
    ∷ text ""
    ∷ text ""
    ∷ text "[A]"
    ∷ text "[V]"
    ∷ text "[W]"
    ∷ text "[A]"
    ∷ text ""
    ∷ text ""
    ∷ text ""
    ∷ text ""
    ∷ text "[V]"
    ∷ text "[A]"
    ∷ text "[K]"
    ∷ text ""
    ∷ text ""
    ∷ text ""
    ∷ text ""
    ∷ []

unfoldable pub rx_variables : List Text
rx_variables = text "command1" ∷ text "command2" ∷ text "shutdown" ∷ text "pwr_device_id" ∷ []

unfoldable pub rx_units : List Text
rx_units = text "" ∷ text "" ∷ text "" ∷ text "" ∷ []
