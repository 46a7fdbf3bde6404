-- ===== src/Slave/Views.antt =====
-- The screen, the units and the JSON message show the same slave: the tables of names, units and
-- values fit one another, and the JSON message holds under each name what the screen shows.
use kddv.Base.{
  ℕ, zero, suc, ◌≡◌, refl, sym, ◌≢◌, some, subst, some-injective, List, [], ◌∷◌, map, All, length,
  get_elem?,
}
use kddv.Text.{Text, text}
use kddv.Text.Keys.{Distinct, distinct, distinct-Distinct}
use kddv.Scalar.{Scalar, scalar_to_string}
use kddv.Json.{JsonLib, JsonLaws, of_scalar}
use kddv.Json.Assign.{assign, get-assign, assign_other, assign-IsObject}
use kddv.Slave.{
  Device, kelo_drive, robile_battery, kelo_bms, get_rx_variables, get_tx_variables, get_rx_units,
  get_tx_units, get_rx_values, get_tx_values, convert_to_json,
}
use kddv.Slave.Drive
use kddv.Slave.Battery
use kddv.Slave.Bms

-- The three tables of a slave have one length, for the commands and for the sensors.
pub tables_aligned :
    (d : Device)
    → (length (get_rx_values d) ≡ length (get_rx_variables d))
      × (length (get_rx_units d) ≡ length (get_rx_variables d))
      × (length (get_tx_values d) ≡ length (get_tx_variables d))
      × (length (get_tx_units d) ≡ length (get_tx_variables d))
unfolding get_rx_values get_rx_variables get_rx_units get_tx_values get_tx_variables get_tx_units
tables_aligned (kelo_drive s) = (refl, refl, refl, refl)
tables_aligned (robile_battery s) = (refl, refl, refl, refl)
tables_aligned (kelo_bms s) = (refl, refl, refl, refl)

-- What a class assigns to `data["commands"]` and to `data["sensors"]`.
abbrev commands : Device → List (Text × Scalar)
commands (kelo_drive s) = Drive.commands s
commands (robile_battery s) = Battery.commands s
commands (kelo_bms s) = Bms.commands s

abbrev sensors : Device → List (Text × Scalar)
sensors (kelo_drive s) = Drive.sensors s
sensors (robile_battery s) = Battery.sensors s
sensors (kelo_bms s) = Bms.sensors s

abbrev keys : List (Text × Scalar) → List Text
keys = map (λ e. e.0)

abbrev shown : List (Text × Scalar) → List Text
shown = map (λ e. scalar_to_string e.1)

rx_tables :
    (d : Device) → (get_rx_variables d ≡ keys (commands d)) × (get_rx_values d ≡ shown (commands d))
unfolding get_rx_values get_rx_variables Drive.commands Battery.commands Bms.commands
rx_tables (kelo_drive s) = (refl, refl)
rx_tables (robile_battery s) = (refl, refl)
rx_tables (kelo_bms s) = (refl, refl)

tx_tables :
    (d : Device) → (get_tx_variables d ≡ keys (sensors d)) × (get_tx_values d ≡ shown (sensors d))
unfolding get_tx_values get_tx_variables Drive.sensors Battery.sensors Bms.sensors
tx_tables (kelo_drive s) = (refl, refl)
tx_tables (robile_battery s) = (refl, refl)
tx_tables (kelo_bms s) = (refl, refl)

commands-Distinct : (d : Device) → Distinct (keys (commands d))
unfolding distinct Drive.commands Battery.commands Bms.commands
commands-Distinct (kelo_drive s) = distinct-Distinct (keys (Drive.commands s)) refl
commands-Distinct (robile_battery s) = distinct-Distinct (keys (Battery.commands s)) refl
commands-Distinct (kelo_bms s) = distinct-Distinct (keys (Bms.commands s)) refl

sensors-Distinct : (d : Device) → Distinct (keys (sensors d))
unfolding distinct Drive.sensors Battery.sensors Bms.sensors
sensors-Distinct (kelo_drive s) = distinct-Distinct (keys (Drive.sensors s)) refl
sensors-Distinct (robile_battery s) = distinct-Distinct (keys (Battery.sensors s)) refl
sensors-Distinct (kelo_bms s) = distinct-Distinct (keys (Bms.sensors s)) refl

assign_groups :
    (J : JsonLib) (d : Device) (v : J.Value)
    → convert_to_json J d v
      ≡ assign J (text "sensors") (sensors d) (assign J (text "commands") (commands d) v)
unfolding convert_to_json
assign_groups J (kelo_drive s) v = refl
assign_groups J (robile_battery s) v = refl
assign_groups J (kelo_bms s) v = refl

-- The entry of a table of fields at the index of a name.
entry_at {ℓ} :
    (P : Text × Scalar → Type ℓ) (kvs : List (Text × Scalar)) (i : ℕ) {name shown_text : Text}
    → All P kvs
    → get_elem? (keys kvs) i ≡ some name
    → get_elem? (shown kvs) i ≡ some shown_text
    → (x : Scalar) × (scalar_to_string x ≡ shown_text) × P (name, x)
entry_at P [] i all p q = cc
entry_at P ((k, x) ∷ kvs) zero all p q =
    (x, some-injective _ _ q, subst (λ n. P (n, x)) (some-injective _ _ p) all.0)
entry_at P ((k, x) ∷ kvs) (suc i) all p q = entry_at P kvs i all.1 p q

groups_differ : ◌≢◌ {A = Text} (text "commands") (text "sensors")
groups_differ = cc

module _ (J : JsonLib) (L : JsonLaws J) where
  open J use {get, null}
  open L use {IsObject, null-IsObject, get-null}

  nothing-IsObject : (group : Text) → IsObject (get null group)
  nothing-IsObject group = rw (get-null group) null-IsObject

  after_commands : Device → J.Value
  after_commands d = assign J (text "commands") (commands d) null

  after_commands-IsObject : (d : Device) → IsObject (after_commands d)
  unfolding after_commands
  after_commands-IsObject d = assign-IsObject J L (text "commands") (commands d) null null-IsObject

  no_sensors_yet : (d : Device) → IsObject (get (after_commands d) (text "sensors"))
  unfolding after_commands
  no_sensors_yet d =
      rw
        (assign_other J L (text "commands") (text "sensors") (commands d) null null-IsObject
          groups_differ)
        (nothing-IsObject (text "sensors"))

  -- The JSON object of a slave holds, under "sensors" and the i-th sensor's name, a value whose text
  -- is the i-th sensor value on the screen.
  pub json-sensors :
      (d : Device) (i : ℕ) {name shown_text : Text}
      → get_elem? (get_tx_variables d) i ≡ some name
      → get_elem? (get_tx_values d) i ≡ some shown_text
      → (x : Scalar) × (scalar_to_string x ≡ shown_text)
        × (get (get (convert_to_json J d null) (text "sensors")) name ≡ of_scalar J x)
  unfolding after_commands
  json-sensors d i p q = rw (assign_groups J d null) (
      entry_at
        (λ e.
          get (get (assign J (text "sensors") (sensors d) (after_commands d)) (text "sensors")) e.0
          ≡ of_scalar J e.1)
        (sensors d) i
        (get-assign J L (text "sensors") (sensors d) (after_commands d) (after_commands-IsObject d)
          (no_sensors_yet d) (sensors-Distinct d))
        (rw (tx_tables d).0 at p) (rw (tx_tables d).1 at q))

  -- The JSON object of a slave holds, under "commands" and the i-th command's name, a value whose text
  -- is the i-th command value on the screen.
  pub json-commands :
      (d : Device) (i : ℕ) {name shown_text : Text}
      → get_elem? (get_rx_variables d) i ≡ some name
      → get_elem? (get_rx_values d) i ≡ some shown_text
      → (x : Scalar) × (scalar_to_string x ≡ shown_text)
        × (get (get (convert_to_json J d null) (text "commands")) name ≡ of_scalar J x)
  unfolding after_commands
  json-commands d i p q =
      rw
        (
          assign_groups J d null,
          assign_other J L (text "sensors") (text "commands") (sensors d) (after_commands d)
              (after_commands-IsObject d) (λ e. groups_differ (sym e)),
        )
        (entry_at (λ e. get (get (after_commands d) (text "commands")) e.0 ≡ of_scalar J e.1)
          (commands d) i
          (get-assign J L (text "commands") (commands d) null null-IsObject
            (nothing-IsObject (text "commands")) (commands-Distinct d))
          (rw (rx_tables d).0 at p) (rw (rx_tables d).1 at q))
