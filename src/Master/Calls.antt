-- ===== src/Master/Calls.antt =====
-- The calls of SOEM that `getSlaves`, `start` and the two loops of src/ethercat_master.cpp make, and
-- what becomes of the socket that `ec_init` opens.
pub mod Sockets
use kddv.Base.{ℕ, zero, suc, ℤ, Bool, true, false, List, [], ◌∷◌, ◌++◌, if◌then◌else◌}
use kddv.Text.{Text, is_empty}
use kddv.Slave.{EthercatSlave}
use kddv.Generator.{is_positive}
use kddv.Generator.Info.{Bus}
use kddv.Master.{Exchange, wait_operational, Started, failed, idle, running, start}

pub data Call : Type 0 where
  -- With what it answers.
  ec_init : Bool → Call
  ec_config : Call
  ec_config_init : Call
  ec_config_map : Call
  ec_configdc : Call
  ec_statecheck : Call
  ec_readstate : Call
  ec_writestate : Call
  ec_send_processdata : Call
  ec_receive_processdata : Call
  ec_close : Call

-- `getSlaves`
unfoldable pub get_slaves_calls : Bus → List Call
get_slaves_calls bus =
    let listed = if bus.safe_op then ec_readstate ∷ ec_close ∷ [] else [] in
    let configured = if is_positive bus.config then ec_configdc ∷ ec_statecheck ∷ listed else [] in
    ec_init bus.init ∷ (if bus.init then ec_config ∷ configured else [])

-- The rounds of the `do` loop.
abbrev pub exchange_calls : ℕ → List Call
exchange_calls zero = []
exchange_calls (suc n) =
    ec_send_processdata ∷ ec_receive_processdata ∷ ec_statecheck ∷ exchange_calls n

-- `start`
unfoldable pub start_calls : Bool → ℤ → (ℕ → Exchange) → List Call
start_calls init config_init exchange =
    let prepared =
      ec_config_map
      ∷ ec_configdc
      ∷ ec_statecheck
      ∷ ec_send_processdata
      ∷ ec_receive_processdata
      ∷ ec_writestate
      ∷ exchange_calls (wait_operational exchange 200 0).1 in
    ec_init init
    ∷ (if init then ec_config_init ∷ (if is_positive config_init then prepared else []) else [])

-- Whether `start` leaves the two threads behind.
abbrev pub is_running : Started → Bool
is_running (failed e) = false
is_running (idle miscounted) = false
is_running (running miscounted) = true

-- A call at the end of each of the two loops.
abbrev pub end_calls : Bool → List Call
end_calls true = ec_close ∷ ec_close ∷ []
end_calls false = []

-- A UI that looks for slaves, goes on where there is no error, and stops later. What the loops send
-- and receive in between leaves the socket alone, and is not listed.
abbrev pub session_calls : Bus → ℤ → (ℕ → Exchange) → List EthercatSlave → Text → List Call
session_calls bus config_init exchange slaves error =
    get_slaves_calls bus
    ++ (if is_empty error
        then start_calls bus.init config_init exchange
          ++ end_calls (is_running (start bus.init config_init exchange slaves))
        else [])
