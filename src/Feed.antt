-- ===== src/Feed.antt =====
-- `EthercatDataSource` as the UIs see it: the methods of include/ethercat_data_source.h, dispatched
-- over the master and the sniffer, and the opening of a sniffer with its config file.
pub mod Quiet
use kddv.Base.{ℕ, ℤ, Bool, true, false, Option, none, some, ◌>>=◌, List, [], if◌then◌else◌}
use kddv.Text.{Text, is_empty}
use kddv.Json.{JsonLib}
use kddv.Slave.{EthercatSlave}
use kddv.Sniffer.{PacketSniffer}
use kddv.Sniffer.Setup
use kddv.Sniffer.Setup.{Opens, ConfigFile, set_config_file}
use kddv.Generator.Info.{Bus}
use kddv.Master
use kddv.Master.{Fresh, Exchange, Started, failed, idle, running}

-- The state of an `EthercatMaster` that its methods change.
pub record EthercatMaster : Type 0 where
  pub ifname : Text
  pub slaves : List EthercatSlave
  pub zmq_publish_enabled : Bool
  pub ethercat_running : Bool

abbrev pub new_master : Text → EthercatMaster
new_master ifname = record {
  ifname = ifname;
  slaves = [];
  zmq_publish_enabled = false;
  ethercat_running = false;
}

-- What libtins, the file system and, for an interface, SOEM answer.
pub record World (J : JsonLib) : Type 0 where
  pub open_file : Opens
  pub open_interface : Opens
  pub files : Text → ConfigFile J
  pub fresh : Fresh
  pub bus : Text → Bus
  pub config_init : Text → ℤ
  pub exchange : Text → ℕ → Exchange

module _ (J : JsonLib) where
  pub data Source : Type 0 where
    ethercat_master : EthercatMaster → Source
    packet_sniffer : PacketSniffer J → Source

  abbrev pub slaves_of : Source → List EthercatSlave
  slaves_of (ethercat_master m) = m.slaves
  slaves_of (packet_sniffer s) = s.slaves

  -- Whether there is a source with a thread that is joinable: the two that drive the bus, or the
  -- sniffer's.
  abbrev pub threads_run : Option Source → Bool
  threads_run none = false
  threads_run (some (ethercat_master m)) = m.ethercat_running
  threads_run (some (packet_sniffer s)) = s.sniffer_thread

  -- `setZMQPublish`
  abbrev pub set_zmq_publish : Bool → Source → Source
  set_zmq_publish value (ethercat_master m) =
      ethercat_master (record m { zmq_publish_enabled = value })
  set_zmq_publish value (packet_sniffer s) =
      packet_sniffer (record s { zmq_publish_enabled = value })

  -- `getSlaves`: the source with its new list, and `error`.
  unfoldable pub get_slaves : World J → Source → Text → Option (Source × Text)
  get_slaves w (ethercat_master m) error = do
    (slaves, error') ← Master.get_slaves w.fresh (w.bus m.ifname) error
    some (ethercat_master (record m { slaves = slaves }), error')
  get_slaves w (packet_sniffer s) error = do
    (s', error') ← Setup.get_slaves J w.fresh.memory s error
    some (packet_sniffer s', error')

  unfoldable pub after_start : EthercatMaster → Text → Started → Source × Text
  after_start m error (failed e) = (ethercat_master m, e)
  after_start m error (idle miscounted) = (ethercat_master m, error)
  after_start m error (running miscounted) =
      (ethercat_master (record m { ethercat_running = true }), error)

  -- `start`: the source and `error`. The sniffer only starts its thread,
  -- which must not be joinable then: `std::thread` would end the program.
  unfoldable pub start : World J → Source → Text → Source × Text
  unfolding after_start
  start w (ethercat_master m) error =
      after_start m error
        (Master.start (w.bus m.ifname).init (w.config_init m.ifname) (w.exchange m.ifname) m.slaves)
  start w (packet_sniffer s) error = (packet_sniffer (record s { sniffer_thread = true }), error)

  -- `stop` when it has returned: both threads of the master, or the sniffer's thread, are ended and
  -- joined. How long it waits for them is left to the step relations.
  abbrev pub stop : Source → Source
  stop (ethercat_master m) = ethercat_master (record m { ethercat_running = false })
  stop (packet_sniffer s) = packet_sniffer (record s { sniffer_thread = false })

  -- What a UI has after it chose a source: the source, a message, or a null pointer without one.
  pub data Chosen : Type 0 where
    ready : Source → Chosen
    refused : Text → Chosen
    null_source : Chosen

  -- A sniffer that is open.
  abbrev pub new_sniffer : PacketSniffer J
  new_sniffer = record {
    slaves = [];
    config = J.null;
    zmq_publish_enabled = false;
    sniffer_thread = false;
  }

  abbrev pub unless_error : Text → Chosen → Chosen
  unless_error error_msg next = if is_empty error_msg then next else refused error_msg

  -- A sniffer that is open, and its config file.
  unfoldable pub configured : (Text → ConfigFile J) → Text → Option Chosen
  configured files config_file_name = do
    (s, error_msg) ← set_config_file J files new_sniffer config_file_name []
    some (unless_error error_msg (ready (packet_sniffer s)))
