-- ===== src/Generator/Info.antt =====
-- `get_info` of src/generate_config_file.cpp: the tree that is written to the config file.
use kddv.Base.{ℕ, suc, ℤ, pos, Bool, ◌||◌, Option, some, ◌>>=◌, List, [], ◌∷◌, if◌then◌else◌}
use kddv.Text.{Text, text, str_eq}
use kddv.Json.{JsonLib}
use kddv.Json.Objects.{set_all}
use kddv.Generator.{SdoRead, Mapped, si_map_sdo, is_positive}

-- An element of SOEM's `ec_slave`.
pub record BusSlave : Type 0 where
  pub name : Text
  pub eep_man : ℕ  -- uint32
  pub eep_id : ℕ  -- uint32
  pub eep_rev : ℕ  -- uint32
  pub configadr : ℕ  -- uint16

-- What SOEM answers: whether the interface opens, how many slaves are configured, whether the bus
-- is in SAFE_OP, and `ec_slave[1]` to `ec_slave[ec_slavecount]`.
pub record Bus : Type 0 where
  pub init : Bool
  pub config : ℤ
  pub safe_op : Bool
  pub slaves : List BusSlave

unfoldable pub is_supported : Text → Bool
is_supported name =
    str_eq name (text "SWMC")
    || (str_eq name (text "KELO_ROBILE")
        || (str_eq name (text "KELOD105") || str_eq name (text "KeloEcPd")))

-- The members of the entry of the slave at position `cnt`, in the order in which they are set.
abbrev pub entry_fields : (J : JsonLib) → ℕ → BusSlave → ℤ → ℤ → List (Text × J.Value)
entry_fields J cnt b rx_offset tx_offset =
    (text "Name", J.of_string b.name)
    ∷ (text "Slave ID", J.of_int (pos cnt))
    ∷ (text "EEP Man", J.of_uint b.eep_man)
    ∷ (text "EEP ID", J.of_uint b.eep_id)
    ∷ (text "EEP Rev", J.of_uint b.eep_rev)
    ∷ (text "Address", J.of_int (pos b.configadr))
    ∷ (text "RX start offset", J.of_int rx_offset)
    ∷ (text "TX start offset", J.of_int tx_offset)
    ∷ []

unfoldable pub slave_entry : (J : JsonLib) → ℕ → BusSlave → ℤ → ℤ → J.Value
slave_entry J cnt b rx_offset tx_offset =
    set_all J J.null (entry_fields J cnt b rx_offset tx_offset)

unfoldable pub append_entry : (J : JsonLib) → J.Value → J.Value → J.Value
append_entry J root entry = J.set root (text "Slaves") (J.append (J.get root (text "Slaves")) entry)

-- One round of the loop over the slaves.
unfoldable pub add_slave :
    (J : JsonLib) → ℕ → SdoRead → Mapped → ℕ → BusSlave → J.Value → Option J.Value
add_slave J fuel read m cnt b root =
    let added : Option J.Value = do
      (found, o) ← si_map_sdo fuel read m cnt
      rx_offset ← o.rx_offset
      tx_offset ← o.tx_offset
      some (append_entry J root (slave_entry J cnt b rx_offset tx_offset))
    in if is_supported b.name then added else some root

unfoldable pub info_loop :
    (J : JsonLib) → ℕ → SdoRead → Mapped → List BusSlave → ℕ → J.Value → Option J.Value
info_loop J fuel read m [] cnt root = some root
info_loop J fuel read m (b ∷ rest) cnt root = do
  root' ← add_slave J fuel read m cnt b root
  info_loop J fuel read m rest (suc cnt) root'

-- The tree and what is printed. A bus outside SAFE_OP is reported, and listed all the same.
unfoldable pub get_info : (J : JsonLib) → ℕ → SdoRead → Mapped → Bus → Option (J.Value × List Text)
get_info J fuel read m bus =
    let root = J.set J.null (text "Slaves") J.array in
    let messages = if bus.safe_op then [] else text "Not in SAFE_OP state" ∷ [] in
    let listed : Option (J.Value × List Text) = do
      root' ← info_loop J fuel read m bus.slaves 1 root
      some (root', messages)
    in if bus.init
      then if is_positive bus.config then listed else some (root, text "No slaves found" ∷ [])
      else some (root, text "No socket connection. (try running with sudo)" ∷ [])
