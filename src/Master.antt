-- ===== src/Master.antt =====
-- src/ethercat_master.cpp: the source that drives the bus itself. Here `getSlaves` and `start`; the
-- two threads that `start` leaves behind are in Master/Threads. What SOEM answers is an argument.
pub mod Found
pub mod Retries
pub mod Threads
pub mod Calls
use kddv.Base.{
  ℕ, zero, suc, ◌+◌, ◌*◌, ℤ, pos, negsuc, Bool, true, false, not, ◌||◌, Option, none, some, ◌>>=◌,
  List, [], ◌∷◌, ◌++◌, ◌==◌, if◌then◌else◌, length,
}
use kddv.Text.{Text, text}
use kddv.Slave.{SlaveInfo, EthercatSlave, kelo_drive_slave, robile_battery_slave}
use kddv.Source.{get_slave_type, Uninitialised, make_device}
use kddv.Generator.{is_positive}
use kddv.Generator.Info.{BusSlave, Bus}

-- What a new slave's memory holds; nothing here sets the two offsets.
pub record Fresh : Type 0 where
  pub memory : Uninitialised
  pub rx_start_offset : ℤ
  pub tx_start_offset : ℤ

unfoldable pub is_polled : ℕ → Bool
is_polled slave_type = slave_type == kelo_drive_slave || slave_type == robile_battery_slave

-- One round of the loop: the list of slaves after position `cnt`. `none` is a null pointer that is
-- dereferenced.
unfoldable pub push_slave : Fresh → ℕ → BusSlave → List EthercatSlave → Option (List EthercatSlave)
unfolding is_polled
push_slave fresh cnt b slaves =
    let slave_type = get_slave_type b.name in
    let pushed : Option (List EthercatSlave) = do
      device ← make_device fresh.memory slave_type
      let slave : EthercatSlave = record {
        slave_info = record {
          name = b.name;
          slave_type = slave_type;
          slave_number = pos cnt;
          eep_man = pos b.eep_man;
          eep_rev = pos b.eep_rev;
          eep_id = pos b.eep_id;
          address = pos b.configadr;
          rx_start_offset = fresh.rx_start_offset;
          tx_start_offset = fresh.tx_start_offset;
        };
        device = device;
      }
      some (slaves ++ (slave ∷ []))
    in if is_polled slave_type then pushed else some slaves

-- The loop from position `cnt` on.
unfoldable pub poll_slaves :
    Fresh → List BusSlave → ℕ → List EthercatSlave → Option (List EthercatSlave)
unfolding push_slave
poll_slaves fresh [] cnt slaves = some slaves
poll_slaves fresh (b ∷ bs) cnt slaves = do
  slaves' ← push_slave fresh cnt b slaves
  poll_slaves fresh bs (suc cnt) slaves'

-- `getSlaves`: the list of slaves and `error`.
unfoldable pub get_slaves : Fresh → Bus → Text → Option (List EthercatSlave × Text)
unfolding poll_slaves
get_slaves fresh bus error =
    let polled : Option (List EthercatSlave × Text) = do
      slaves ← poll_slaves fresh bus.slaves 1 []
      some (slaves, error)
    in if bus.init
      then if is_positive bus.config
        then if bus.safe_op then polled else some ([], text "Not in SAFE_OP state")
        else some ([], text "No slaves found")
      else some ([], text "No socket connection. (try running with sudo)")

-- What one exchange of process data in `start` gives: the working counter, and whether the bus is
-- operational afterwards.
pub record Exchange : Type 0 where
  pub wkcnt : ℤ
  pub operational : Bool

-- The `do` loop with `num_retries` left, where exchange `i` comes next: the last exchange, and the
-- number of exchanges that were made.
unfoldable pub wait_operational : (ℕ → Exchange) → ℕ → ℕ → Exchange × ℕ
wait_operational exchange zero i = (exchange i, suc i)
wait_operational exchange (suc num_retries) i =
    let further = wait_operational exchange num_retries (suc i) in
    if not (exchange i).operational then further else (exchange i, suc i)

-- How `start` ends: with an error, without one but with nothing started, or with both threads
-- running; and whether it prints that the working counter is not what it expects.
pub data Started : Type 0 where
  failed : Text → Started
  idle : Bool → Started
  running : Bool → Started

unfoldable pub is_count : ℕ → ℤ → Bool
is_count expected_wkcnt (pos n) = expected_wkcnt == n
is_count expected_wkcnt (negsuc n) = false

-- `ec_init`, `ec_config_init` and the exchanges stand for what SOEM does.
unfoldable pub start : Bool → ℤ → (ℕ → Exchange) → List EthercatSlave → Started
unfolding wait_operational is_count
start init config_init exchange slaves =
    let last = (wait_operational exchange 200 0).0 in
    let miscounted = not (is_count (length slaves * 3) last.wkcnt) in
    if init
    then if is_positive config_init
      then if last.operational then running miscounted else idle miscounted
      else failed (text "No slaves found")
    else failed (text "No socket connection. (try running with sudo)")
