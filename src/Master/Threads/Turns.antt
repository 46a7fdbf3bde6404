-- ===== src/Master/Threads/Turns.antt =====
-- The turns of the two threads of src/ethercat_master.cpp once the flag is cleared, and how many are
-- left.
use kddv.Base.{◌≡◌, subst, ℕ, zero, suc, ◌+◌, ◌≤◌, false, some, List, All, length, arith}
use kddv.Slave.{EthercatSlave}
use kddv.Master.Threads.{
  Image, copy_slave, EthercatAt, exchanging, try_lock, copying, DataCopyAt, take_lock, call_back,
  publish_message, drop_lock, Process, Step, stop, ethercat_break, flag_set, exchange, lock_failed,
  locked, copy, unlock, data_copy_break, go_on, lock_taken, show, publish, lock_dropped,
}
use kddv.Master.Threads.Invariant.{Inv}
use kddv.Master.Threads.Kept.{Step-Inv}

-- SOEM's buffers hold the whole process data of the slave.
abbrev pub Copies : Image → EthercatSlave → Type 0
Copies image s = (s' : EthercatSlave) × (copy_slave image s ≡ some s')

-- A step of one of the two threads, not of the thread that calls `stop`; an exchange fills SOEM's
-- buffers with the whole process data of the slaves again.
abbrev pub IsTurn : {p q : Process} → Step p q → Type 0
IsTurn stop = ⊥
IsTurn {p = p} (exchange image at) = All (Copies image) p.slaves
IsTurn _ = Unit {0}

-- The threads in turns, with the number of their steps.
pub data Turns (p : Process) : ℕ → Process → Type 0 where
  here : Turns p zero p
  turn : {n : ℕ} {q r : Process} → Turns p n q → (move : Step q r) → IsTurn move → Turns p (suc n) r

-- How many steps `ethercatLoop` has at most before it, once the flag is cleared.
unfoldable pub ethercat_left : List EthercatSlave → EthercatAt → ℕ
ethercat_left slaves EthercatAt.check_flag = 1
ethercat_left slaves exchanging = 4 + length slaves
ethercat_left slaves try_lock = 3 + length slaves
ethercat_left slaves (copying copied left) = 2 + length left
ethercat_left slaves EthercatAt.closed = 0

unfoldable pub data_copy_left : DataCopyAt → ℕ
data_copy_left DataCopyAt.check_flag = 1
data_copy_left take_lock = 5
data_copy_left call_back = 4
data_copy_left publish_message = 3
data_copy_left drop_lock = 2
data_copy_left DataCopyAt.closed = 0

abbrev pub steps_left : Process → ℕ
steps_left p = ethercat_left p.slaves p.ethercat_at + data_copy_left p.data_copy_at

-- Each slave that is still to be copied can be.
unfoldable pub Ready : Image → List EthercatSlave → EthercatAt → Type 0
Ready image slaves exchanging = All (Copies image) slaves
Ready image slaves try_lock = All (Copies image) slaves
Ready image slaves (copying copied left) = All (Copies image) left
Ready image slaves EthercatAt.check_flag = Unit {0}
Ready image slaves EthercatAt.closed = Unit {0}

pub record Stopping (initial : List EthercatSlave) (p : Process) : Type 0 where
  pub inv : Inv initial p
  pub off : p.ethercat_running ≡ false
  pub ready : Ready p.image p.slaves p.ethercat_at

pub Stopping-Ready :
    {initial : List EthercatSlave} (p : Process) {at : EthercatAt}
    → p.ethercat_at ≡ at
    → Stopping initial p
    → Ready p.image p.slaves at
Stopping-Ready p e h = subst (Ready p.image p.slaves) e h.ready

-- A turn leaves the flag off and what is left to be copied ready, and fewer steps are left.
turn-Stopping :
    {initial : List EthercatSlave} (p q : Process) (move : Step p q)
    → IsTurn move
    → Stopping initial p
    → Stopping initial q × (suc (steps_left q) ≤ steps_left p)
unfolding Ready ethercat_left data_copy_left
turn-Stopping p q stop is h = absurd is
turn-Stopping p q (ethercat_break at off) is h = (
  record { inv = Step-Inv p q h.inv (ethercat_break at off); off = h.off; ready = tt },
  rw at (omega arith),
)
turn-Stopping p q (flag_set at on) is h = absurd (ground (arith, on, h.off))
turn-Stopping p q (exchange image at) is h = (
  record { inv = Step-Inv p q h.inv (exchange image at); off = h.off; ready = is },
  rw at (omega arith),
)
turn-Stopping p q (lock_failed at) is h = (
  record { inv = Step-Inv p q h.inv (lock_failed at); off = h.off; ready = tt },
  rw at (omega arith),
)
turn-Stopping p q (locked at unheld) is h = (
  record {
    inv = Step-Inv p q h.inv (locked at unheld);
    off = h.off;
    ready = Stopping-Ready p at h;
  },
  rw at (omega arith),
)
turn-Stopping p q (copy copied s s' left at one) is h = (
  record {
    inv = Step-Inv p q h.inv (copy copied s s' left at one);
    off = h.off;
    ready = (Stopping-Ready p at h).1;
  },
  rw at (omega arith),
)
turn-Stopping p q (unlock copied at) is h = (
  record { inv = Step-Inv p q h.inv (unlock copied at); off = h.off; ready = tt },
  rw at (omega arith),
)
turn-Stopping p q (data_copy_break at off) is h = (
  record { inv = Step-Inv p q h.inv (data_copy_break at off); off = h.off; ready = h.ready },
  rw at (omega arith),
)
turn-Stopping p q (go_on at on) is h = absurd (ground (arith, on, h.off))
turn-Stopping p q (lock_taken at unheld) is h = (
  record { inv = Step-Inv p q h.inv (lock_taken at unheld); off = h.off; ready = h.ready },
  rw at (omega arith),
)
turn-Stopping p q (show at) is h = (
  record { inv = Step-Inv p q h.inv (show at); off = h.off; ready = h.ready },
  rw at (omega arith),
)
turn-Stopping p q (publish at) is h = (
  record { inv = Step-Inv p q h.inv (publish at); off = h.off; ready = h.ready },
  rw at (omega arith),
)
turn-Stopping p q (lock_dropped at) is h = (
  record { inv = Step-Inv p q h.inv (lock_dropped at); off = h.off; ready = h.ready },
  rw at (omega arith),
)

pub Turns-Stopping :
    {initial : List EthercatSlave} (p : Process) {n : ℕ} (q : Process)
    → Turns p n q
    → Stopping initial p
    → Stopping initial q × (n + steps_left q ≤ steps_left p)
Turns-Stopping p q here h = (h, omega arith)
Turns-Stopping p q (turn {q = mid} turns move is) h =
    let (mid_stopping, before) = Turns-Stopping p mid turns h in
    let (stopping, less) = turn-Stopping mid q move is mid_stopping in (stopping, omega arith)
