-- ===== src/Sniffer/Setup.antt =====
-- `PacketSniffer`'s constructor, `setConfigFile` and `getSlaves`. An error message is empty where
-- there is no error.
use kddv.Base.{
  ℕ, zero, suc, ◌+◌, Bool, Option, none, some, ◌>>=◌, List, [], ◌∷◌, ◌++◌, if◌then◌else◌,
}
use kddv.Text.{Text, text}
use kddv.Json.{JsonLib}
use kddv.Slave.{EthercatSlave}
use kddv.Source.{get_slave_type, Uninitialised, make_device}
use kddv.Sniffer.{PacketSniffer}

-- What libtins answers when a capture is opened: the text of its exception, if it throws one.
abbrev pub Opens : Type 0
Opens = Text → Option Text

-- `error_msg` after a `try` that may have set it.
caught : Text → Text → Option Text → Text
caught error_msg hint none = error_msg
caught error_msg hint (some what) = what ++ hint

-- The constructor's `error_msg`, from what it was before.
unfoldable pub constructor_error : Opens → Opens → Text → Bool → Text → Text
unfolding caught
constructor_error open_file open_interface ifname_or_filename is_pcap_file error_msg =
    if is_pcap_file
    then caught error_msg [] (open_file ifname_or_filename)
    else caught error_msg (text " (try running with sudo)") (open_interface ifname_or_filename)

-- A file by its name: absent, or with a content that jsoncpp reads, or does not read and throws.
pub data ConfigFile (J : JsonLib) : Type 0 where
  missing : ConfigFile J
  malformed : ConfigFile J
  parsed : J.Value → ConfigFile J

-- `infile >> config`, or the message; `none` is jsoncpp's exception.
unfoldable pub store_config :
    (J : JsonLib) → PacketSniffer J → Text → Text → ConfigFile J → Option (PacketSniffer J × Text)
store_config J s filename error_msg missing = some (s, text "Could not open file " ++ filename)
store_config J s filename error_msg malformed = none
store_config J s filename error_msg (parsed v) = some (record s { config = v }, error_msg)

-- `loadConfig`: the sniffer and `error_msg` afterwards.
unfoldable pub load_config :
    (J : JsonLib)
    → (Text → ConfigFile J)
    → PacketSniffer J
    → Text
    → Text
    → Option (PacketSniffer J × Text)
unfolding store_config
load_config J files s filename error_msg = store_config J s filename error_msg (files filename)

unfoldable pub set_config_file :
    (J : JsonLib)
    → (Text → ConfigFile J)
    → PacketSniffer J
    → Text
    → Text
    → Option (PacketSniffer J × Text)
unfolding load_config
set_config_file J files s filename error_msg = load_config J files s filename error_msg

-- One round of the loop: `config["Slaves"][i]` made into a slave.
unfoldable pub slave_of_entry : (J : JsonLib) → Uninitialised → J.Value → Option EthercatSlave
slave_of_entry J u entry = do
  name ← J.as_string (J.get entry (text "Name"))
  let slave_type = get_slave_type name
  device ← make_device u slave_type
  slave_number ← J.as_int (J.get entry (text "Slave ID"))
  eep_man ← J.as_int (J.get entry (text "EEP Man"))
  eep_id ← J.as_int (J.get entry (text "EEP ID"))
  eep_rev ← J.as_int (J.get entry (text "EEP Rev"))
  address ← J.as_int (J.get entry (text "Address"))
  rx_start_offset ← J.as_int (J.get entry (text "RX start offset"))
  tx_start_offset ← J.as_int (J.get entry (text "TX start offset"))
  some (record {
    slave_info = record {
      name = name;
      slave_type = slave_type;
      slave_number = slave_number;
      eep_man = eep_man;
      eep_rev = eep_rev;
      eep_id = eep_id;
      address = address;
      rx_start_offset = rx_start_offset;
      tx_start_offset = tx_start_offset;
    };
    device = device;
  })

-- The loop from index `i` on, with `count` rounds left; `slaves` grows at its end.
unfoldable pub slaves_from :
    (J : JsonLib)
    → Uninitialised
    → J.Value
    → ℕ
    → ℕ
    → List EthercatSlave
    → Option (List EthercatSlave)
unfolding slave_of_entry
slaves_from J u entries zero i slaves = some slaves
slaves_from J u entries (suc count) i slaves = do
  s ← slave_of_entry J u (J.at entries i)
  slaves_from J u entries count (i + 1) (slaves ++ (s ∷ []))

-- `getSlaves`: the sniffer with its new list, and `error`.
unfoldable pub get_slaves :
    (J : JsonLib) → Uninitialised → PacketSniffer J → Text → Option (PacketSniffer J × Text)
unfolding slaves_from
get_slaves J u s error =
    let entries = J.get s.config (text "Slaves") in
    let filled : Option (PacketSniffer J × Text) = do
      slaves ← slaves_from J u entries (J.size entries) 0 []
      some (record s { slaves = slaves }, error)
    in if J.empty s.config
      then some (record s { slaves = [] }, text "No config file specified")
      else filled
