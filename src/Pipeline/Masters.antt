-- ===== src/Pipeline/Masters.antt =====
-- One bus seen by src/ethercat_master.cpp, and by src/packet_sniffer.cpp through the config file of
-- src/generate_config_file.cpp.
use kddv.Base.{ℕ, ◌≡◌, true, some, List}
use kddv.Text.{Text}
use kddv.Json.{JsonLib, JsonLaws, ArrayLaws}
use kddv.Slave.{EthercatSlave}
use kddv.Generator.{SdoRead, Mapped, is_positive}
use kddv.Generator.Info.{Bus, get_info}
use kddv.Generator.Listed.{Listed}
use kddv.Generator.RoundTrip.{get_slaves-get_info}
use kddv.Sniffer.{PacketSniffer}
use kddv.Sniffer.Setup
use kddv.Master
use kddv.Master.{Fresh}
use kddv.Master.Found.{polled_of, get_slaves-Listed}

module _ (J : JsonLib) (L : JsonLaws J) (A : ArrayLaws J) where
  -- For an interface that opens and a bus in SAFE_OP, of which each supported slave has offsets that
  -- `si_map_sdo` finds and numbers that fit an `int`: the generator ends with a tree; a sniffer makes
  -- slaves of this tree; and the master, on the bus itself, finds these same slaves in the same order
  -- with the same names, numbers, identities and addresses, except that it leaves out the power
  -- distributions and sets no offsets. Neither of them leaves an error.
  pub masters_agree :
      (fuel : ℕ) (read : SdoRead) (m : Mapped) (bus : Bus) (fresh : Fresh)
      (listed : List EthercatSlave) (s : PacketSniffer J) (error : Text)
      → bus.init ≡ true
      → is_positive bus.config ≡ true
      → bus.safe_op ≡ true
      → Listed fresh.memory fuel read m bus.slaves 1 listed
      → (root : J.Value) × (messages : List Text) × (sniffed : List EthercatSlave) × (get_info J
            fuel read m bus
          ≡ some (root, messages))
        × (Setup.get_slaves J fresh.memory (record s { config = root }) error
            ≡ some (record s { config = root; slaves = sniffed }, error))
        × (Master.get_slaves fresh bus error ≡ some (polled_of fresh sniffed, error))
  masters_agree fuel read m bus fresh listed s error opens configured ready l =
      let (root, messages, made, read_back) =
        get_slaves-get_info J L A fresh.memory fuel read m bus listed s error opens configured l in
      (
        root,
        messages,
        listed,
        made,
        read_back,
        get_slaves-Listed fresh fuel read m bus listed error opens configured ready l,
      )
