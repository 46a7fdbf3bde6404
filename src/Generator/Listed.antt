-- ===== src/Generator/Listed.antt =====
-- The slaves that a config file made by the generator should give.
use kddv.Base.{
  ℕ, suc, ◌<◌, ◌^◌, ◌≡◌, ℤ, pos, Bool, true, false, none, some, List, [], ◌∷◌, Option-cases, ◌≢◌,
  inl, inr, arith,
}
use kddv.Text.{Text, text}
use kddv.Json.{IsInt}
use kddv.Slave.{EthercatSlave, Device}
use kddv.Source.{get_slave_type, Uninitialised, make_device}
use kddv.Generator.{SdoRead, Mapped, Offsets, si_map_sdo}
use kddv.Generator.Info.{BusSlave, is_supported}

-- The slave that stands for a slave on the bus.
abbrev pub slave_for : ℕ → BusSlave → Device → ℤ → ℤ → EthercatSlave
slave_for cnt b device rx_offset tx_offset = record {
  slave_info = record {
    name = b.name;
    slave_type = get_slave_type b.name;
    slave_number = pos cnt;
    eep_man = pos b.eep_man;
    eep_rev = pos b.eep_rev;
    eep_id = pos b.eep_id;
    address = pos b.configadr;
    rx_start_offset = rx_offset;
    tx_start_offset = tx_offset;
  };
  device = device;
}

not_null :
    (u : Uninitialised) (name : Text)
    → is_supported name ≡ true
    → make_device u (get_slave_type name) ≢ none
unfolding is_supported get_slave_type make_device
not_null u name h e = ground arith

-- Every supported name has a type, so a device is made for it.
pub make_device_supported :
    (u : Uninitialised) (name : Text)
    → is_supported name ≡ true
    → (d : Device) × (make_device u (get_slave_type name) ≡ some d)
make_device_supported u name h = elim (Option-cases (make_device u (get_slave_type name))) [
  | inl e ↦ absurd (not_null u name h e)
  | inr made ↦ made
]

-- The numbers of a slave fit an `int`; `asInt` throws on an unsigned number that does not.
pub record IdsFit (b : BusSlave) : Type 0 where
  pub man_fits : b.eep_man < 2 ^ 31
  pub id_fits : b.eep_id < 2 ^ 31
  pub rev_fits : b.eep_rev < 2 ^ 31
  pub address_fits : b.configadr < 2 ^ 16

-- The slaves that a sniffer should have for the slaves on the bus from position `cnt` on: one for each
-- supported slave, whose offsets were found by `si_map_sdo` and whose numbers fit.
pub data Listed (u : Uninitialised) (fuel : ℕ) (read : SdoRead) (m : Mapped)
    : List BusSlave → ℕ → List EthercatSlave → Type 0 where
  done : {cnt : ℕ} → Listed u fuel read m [] cnt []
  skipped :
      {cnt : ℕ} {b : BusSlave} {rest : List BusSlave} {ss : List EthercatSlave}
      → is_supported b.name ≡ false
      → Listed u fuel read m rest (suc cnt) ss
      → Listed u fuel read m (b ∷ rest) cnt ss
  listed :
      {cnt : ℕ} {b : BusSlave} {rest : List BusSlave} {ss : List EthercatSlave} (d : Device)
      (found : Bool) (o : Offsets) (rx tx : ℤ)
      → is_supported b.name ≡ true
      → make_device u (get_slave_type b.name) ≡ some d
      → si_map_sdo fuel read m cnt ≡ some (found, o)
      → (o.rx_offset ≡ some rx) × (o.tx_offset ≡ some tx)
      → IsInt rx × IsInt tx
      → IdsFit b
      → cnt < 2 ^ 31
      → Listed u fuel read m rest (suc cnt) ss
      → Listed u fuel read m (b ∷ rest) cnt (slave_for cnt b d rx tx ∷ ss)

abbrev pub entry_names : List Text
entry_names =
    text "Name"
    ∷ text "Slave ID"
    ∷ text "EEP Man"
    ∷ text "EEP ID"
    ∷ text "EEP Rev"
    ∷ text "Address"
    ∷ text "RX start offset"
    ∷ text "TX start offset"
    ∷ []
