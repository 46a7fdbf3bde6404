-- ===== src/Examples/Driving.antt =====
-- The master on a bus of one drive, and its two threads with one battery.
use kddv.Base.{
  List, ◌≡◌, ◌≤◌, ◌+◌, ◌⊎◌, length, refl, ℕ, pos, negsuc, true, false, not, inl, some, [], ◌∷◌, All,
  leb, arith,
}
use kddv.Text.{Text, text}
use kddv.Slave.{SlaveInfo, EthercatSlave, robile_battery, copy_data}
use kddv.Slave.Image.{rx_image, tx_image}
use kddv.Master.{Fresh, Exchange, get_slaves, start, running, wait_operational, is_count}
use kddv.Master.Found.{polled_of, get_slaves-Listed}
use kddv.Master.Retries.{start_exchanges}
use kddv.Master.Calls.{session_calls}
use kddv.Master.Calls.Sockets.{after_calls, none_open, session_sockets}
use kddv.Master.Threads.{
  Step, exchanging, Image, copy_slave, Process, started, Run, here, then_step, flag_set, exchange,
  locked, copy, unlock, go_on, lock_taken, show, publish, stop, copying, ethercat, called_back,
  published, data_copy, drop_lock, publish_report,
}
use kddv.Master.Threads.Invariant.{Whole, reported}
use kddv.Master.Threads.Snapshots.{reports-Whole}
use kddv.Master.Threads.Late.{late_exchange}
use kddv.Master.Threads.Turns.{Turns, turn}
use kddv.Master.Threads.Stopping.{Joined, Turn, stop_joins}
use kddv.Generator.Info.{get_info}
use kddv.Sniffer.Setup
use kddv.Pipeline.Masters.{masters_agree}
use kddv.Examples.JsonModel.{Json, json, json_laws, array_laws}
use kddv.Examples.Sniffing.{sniffer}
use kddv.Examples.Devices.{memory, battery_memory, some_battery}
use kddv.Examples.Generating.{dictionary, mapped, bus, found, bus_Listed}

abbrev pub fresh : Fresh
fresh = record { memory = memory; rx_start_offset = pos 7; tx_start_offset = negsuc 0 }

masters_agree_example :
    (root : Json) × (messages : List Text) × (sniffed : List EthercatSlave) × (get_info json 3
        dictionary mapped bus
      ≡ some (root, messages))
    × (Setup.get_slaves json memory (record sniffer { config = root }) []
        ≡ some (record sniffer { config = root; slaves = sniffed }, []))
    × (get_slaves fresh bus [] ≡ some (polled_of fresh sniffed, []))
masters_agree_example =
    masters_agree json json_laws array_laws 3 dictionary mapped bus fresh (found ∷ []) sniffer []
      refl refl refl bus_Listed

-- The bus is operational from the third exchange on.
abbrev pub exchanges : ℕ → Exchange
exchanges i = record { wkcnt = pos i; operational = leb 2 i }

start_exchanges_example :
    (wait_operational exchanges 200 0 ≡ (exchanges 2, 3))
    × (start true (pos 1) exchanges (found ∷ []) ≡ running (not (is_count 3 (pos 2))))
start_exchanges_example =
    start_exchanges (pos 1) exchanges (found ∷ []) 2 refl (omega arith) (λ j h. ground arith)
      (inl refl)

-- The threads run, and both close the socket.
session_sockets_example :
    after_calls (session_calls bus (pos 1) exchanges (polled_of fresh (found ∷ [])) []) none_open
    ≡ record { is_open = false; lost = 0; closed_again = 1 }
unfolding start wait_operational is_count
session_sockets_example =
    session_sockets fresh bus (pos 1) exchanges (polled_of fresh (found ∷ [])) []
      (get_slaves-Listed fresh 3 dictionary mapped bus (found ∷ []) [] refl refl refl bus_Listed)

abbrev info : SlaveInfo
info = record {
  name = text "KELO_ROBILE";
  slave_type = 2;
  slave_number = pos 1;
  eep_man = pos 1;
  eep_rev = pos 1;
  eep_id = pos 1;
  address = pos 4097;
  rx_start_offset = pos 0;
  tx_start_offset = pos 0;
}

abbrev pub before : EthercatSlave
before = record { slave_info = info; device = robile_battery battery_memory }

abbrev pub after : EthercatSlave
after = record { slave_info = info; device = robile_battery some_battery }

abbrev image : Image
image n = (rx_image (robile_battery some_battery), tx_image (robile_battery some_battery))

before-after : copy_slave image before ≡ some after
unfolding copy_slave copy_data kddv.Slave.Battery.copy_data kddv.Memory.memcpy
    kddv.Slave.Battery.Pdo.rx_of_bytes kddv.Slave.Battery.Pdo.tx_of_bytes
before-after = refl

abbrev pub silent : Image
silent n = ([], [])

-- One exchange, copied and called_back, with `stop` before the message.
abbrev pub shown : Process
shown = record (started silent (before ∷ []) true) {
  image = image;
  exchanged = image ∷ [];
  ethercat_running = false;
  data_mutex = data_copy;
  slaves = after ∷ [];
  data_copy_at = drop_lock;
  reports = called_back (after ∷ []) ∷ published (after ∷ []) ∷ [];
}

pub run : Run (started silent (before ∷ []) true) shown
unfolding publish_report
run =
    then_step
      (then_step
        (then_step
          (then_step
            (then_step
              (then_step
                (then_step
                  (then_step (then_step (then_step here (go_on refl refl)) (flag_set refl refl))
                    (exchange image refl))
                  (locked refl refl))
                (copy [] before after [] refl before-after))
              (unlock (after ∷ []) refl))
            (lock_taken refl refl))
          (show refl))
        stop)
      (publish refl)

reports-Whole_example : All (λ r. Whole (before ∷ []) shown.exchanged (reported r)) shown.reports
reports-Whole_example = reports-Whole silent (before ∷ []) true shown run

-- `stop` comes while the slave is copied.
abbrev interrupted : Process
interrupted = record (started silent (before ∷ []) true) {
  image = image;
  exchanged = image ∷ [];
  ethercat_running = false;
  data_mutex = ethercat;
  ethercat_at = copying [] (before ∷ []);
}

interrupted-Run : Run (started silent (before ∷ []) true) interrupted
interrupted-Run =
    then_step
      (then_step (then_step (then_step here (flag_set refl refl)) (exchange image refl))
        (locked refl refl))
      stop

abbrev unlocked : Process
unlocked = record (started silent (before ∷ []) true) {
  image = image;
  exchanged = image ∷ [];
  ethercat_running = false;
  slaves = after ∷ [];
}

unlocked-Turns : Turns interrupted 2 unlocked
unlocked-Turns =
    turn (turn Turns.here (copy [] before after [] refl before-after) tt) (unlock (after ∷ []) refl)
      tt

stop_joins_example : (2 ≤ length (before ∷ []) + 9) × (Joined unlocked ⊎ Turn unlocked)
stop_joins_example =
    stop_joins silent (before ∷ []) true 2 interrupted unlocked interrupted-Run refl
      ((after, before-after), tt) unlocked-Turns

late_exchange_example :
    (p q : Process) × Run (started silent (before ∷ []) false) p
    × (p.socket_open ≡ false)
    × (p.ethercat_at ≡ exchanging)
    × Step p q
    × (q.exchanged ≡ image ∷ p.exchanged)
    × (q.socket_open ≡ false)
late_exchange_example = late_exchange silent image (before ∷ []) false
