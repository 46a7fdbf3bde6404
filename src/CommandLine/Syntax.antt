-- ===== src/CommandLine/Syntax.antt =====
-- The words of the command line: what `main` compares `argv[i]` with, and the local variables it
-- sets.
use kddv.Base.{Bool, false, ◌||◌, [], if◌then◌else◌}
use kddv.Text.{Text, text, str_eq}

-- The local variables of `main`.
pub record Options : Type 0 where
  pub input_source : Text
  pub network_interface : Text
  pub config_file : Text
  pub pcap_file : Text
  pub start : Bool
  pub zmq_port : Text
  pub publish_zmq : Bool

-- Their values before the loop.
abbrev pub defaults : Options
defaults = record {
  input_source = [];
  network_interface = [];
  config_file = [];
  pcap_file = [];
  start = false;
  zmq_port = text "9872";
  publish_zmq = false;
}

-- Why `main` returns 1, one constructor for each message.
pub data Failure : Type 0 where
  missing_value : Failure
  invalid_source : Failure
  unknown_option : Failure
  no_source : Failure
  no_interface : Failure
  no_config : Failure
  no_pcap : Failure

pub data Outcome : Type 0 where
  exit_1 : Failure → Outcome
  accepted : Options → Outcome

abbrev pub and_then : Outcome → (Options → Outcome) → Outcome
and_then (exit_1 e) f = exit_1 e
and_then (accepted o) f = f o

-- The options that a value follows.
pub data ValueOption : Type 0 where
  src : ValueOption
  iface : ValueOption
  config : ValueOption
  pcap : ValueOption
  port : ValueOption

pub data Word : Type 0 where
  takes_value : ValueOption → Word
  start_word : Word
  publish_word : Word
  other_word : Word

-- The chain of `strcmp`.
unfoldable pub word_of : Text → Word
word_of arg =
    if str_eq arg (text "--src")
    then takes_value src
    else if str_eq arg (text "--iface")
    then takes_value iface
    else if str_eq arg (text "--config")
    then takes_value config
    else if str_eq arg (text "--pcap")
    then takes_value pcap
    else if str_eq arg (text "--start")
    then start_word
    else if str_eq arg (text "--zmq_port")
    then takes_value port
    else if str_eq arg (text "--publish_zmq")
    then publish_word
    else other_word

unfoldable pub is_source : Text → Bool
is_source s = str_eq s (text "ecat") || (str_eq s (text "sniffer") || str_eq s (text "pcap"))

-- What an option does with its value.
unfoldable pub set_value : ValueOption → Text → Options → Outcome
unfolding is_source
set_value src value o =
    if is_source value then accepted (record o { input_source = value }) else exit_1 invalid_source
set_value iface value o = accepted (record o { network_interface = value })
set_value config value o = accepted (record o { config_file = value })
set_value pcap value o = accepted (record o { pcap_file = value })
set_value port value o = accepted (record o { zmq_port = value })
