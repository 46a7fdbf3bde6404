-- ===== src/Master/Threads/Late.antt =====
-- src/ethercat_master.cpp: both loops call `ec_close`, and the first call may come too early.
use kddv.Base.{◌≡◌, refl, Bool, false, List, ◌∷◌}
use kddv.Slave.{EthercatSlave}
use kddv.Master.Threads.{
  Image, exchanging, Process, started, Step, flag_set, stop, exchange, data_copy_break, Run, here,
  then_step,
}

-- With any slaves there is an order of turns, with `stop` among them, in which `dataCopyLoop` has
-- closed SOEM's socket at its end while `ethercatLoop` is past its test of the flag: the next thing
-- that `ethercatLoop` does is to send and receive process data on the closed socket.
pub late_exchange :
    (image next : Image) (initial : List EthercatSlave) (zmq_publish_enabled : Bool)
    → (p q : Process) × Run (started image initial zmq_publish_enabled) p
      × (p.socket_open ≡ false)
      × (p.ethercat_at ≡ exchanging)
      × Step p q
      × (q.exchanged ≡ next ∷ p.exchanged)
      × (q.socket_open ≡ false)
late_exchange image next initial zmq_publish_enabled = (
  _,
  _,
  then_step (then_step (then_step here (flag_set refl refl)) stop) (data_copy_break refl refl),
  refl,
  refl,
  exchange next refl,
  refl,
  refl,
)
