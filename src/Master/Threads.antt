-- ===== src/Master/Threads.antt =====
-- The threads of src/ethercat_master.cpp, `ethercatLoop` and `dataCopyLoop`, with the mutex and the
-- flag between them, as steps of one process; a step is what a thread does between two points at
-- which the other may act. `stop` and the destructor clear the flag and wait for both threads.
pub mod Invariant
pub mod Kept
pub mod Late
pub mod Snapshots
pub mod Turns
pub mod Stopping
use kddv.Base.{
  ◌≡◌, ℕ, ℤ, Bool, true, false, Option, some, ◌>>=◌, List, [], ◌∷◌, ◌++◌, if◌then◌else◌,
}
use kddv.Slave.{EthercatSlave, copy_data}

-- The process data that SOEM holds: for a slave number, the bytes at `outputs` and at `inputs`.
abbrev pub Image : Type 0
Image = ℤ → (List ℕ × List ℕ)

unfoldable pub copy_slave : Image → EthercatSlave → Option EthercatSlave
copy_slave image s =
    let (outputs, inputs) = image s.slave_info.slave_number in copy_data s outputs inputs

-- The loop of `copyData`, in one go.
unfoldable pub copy_all : Image → List EthercatSlave → Option (List EthercatSlave)
unfolding copy_slave
copy_all image [] = some []
copy_all image (s ∷ rest) = do
  s' ← copy_slave image s
  rest' ← copy_all image rest
  some (s' ∷ rest')

pub data Owner : Type 0 where
  nobody : Owner
  ethercat : Owner
  data_copy : Owner

-- Where `ethercatLoop` stands; inside the loop of `copyData` with the slaves that are copied and
-- those that are left.
pub data EthercatAt : Type 0 where
  check_flag : EthercatAt
  exchanging : EthercatAt
  try_lock : EthercatAt
  copying : List EthercatSlave → List EthercatSlave → EthercatAt
  closed : EthercatAt

-- Where `dataCopyLoop` stands.
pub data DataCopyAt : Type 0 where
  check_flag : DataCopyAt
  take_lock : DataCopyAt
  call_back : DataCopyAt
  publish_message : DataCopyAt
  drop_lock : DataCopyAt
  closed : DataCopyAt

-- The slaves as they are when the callback is called, and when the message is made of them. The TUI
-- draws them before the call returns; the GUI only keeps the pointers for later.
pub data Report : Type 0 where
  called_back : List EthercatSlave → Report
  published : List EthercatSlave → Report

pub record Process : Type 0 where
  pub image : Image
  pub ethercat_running : Bool
  pub data_mutex : Owner
  pub slaves : List EthercatSlave
  pub ethercat_at : EthercatAt
  pub data_copy_at : DataCopyAt
  pub zmq_publish_enabled : Bool
  pub reports : List Report
  -- A history that the code does not keep: the images that were received, the last one first.
  pub exchanged : List Image
  -- SOEM's socket, which `start` has opened and `ec_close` closes.
  pub socket_open : Bool

-- As `start` leaves it.
abbrev pub started : Image → List EthercatSlave → Bool → Process
started image slaves zmq_publish_enabled = record {
  image = image;
  ethercat_running = true;
  data_mutex = nobody;
  slaves = slaves;
  ethercat_at = EthercatAt.check_flag;
  data_copy_at = DataCopyAt.check_flag;
  zmq_publish_enabled = zmq_publish_enabled;
  reports = [];
  exchanged = [];
  socket_open = true;
}

unfoldable pub publish_report : Bool → List EthercatSlave → List Report
publish_report enabled slaves = if enabled then published slaves ∷ [] else []

-- Either thread may go first at every point; `try_lock` may fail at any time.
pub data Step (p : Process) : Process → Type 0 where
  stop : Step p (record p { ethercat_running = false })
  -- `break`, and `ec_close` behind the loop.
  ethercat_break :
      p.ethercat_at ≡ EthercatAt.check_flag
      → p.ethercat_running ≡ false
      → Step p (record p { ethercat_at = EthercatAt.closed; socket_open = false })
  flag_set :
      p.ethercat_at ≡ EthercatAt.check_flag
      → p.ethercat_running ≡ true
      → Step p (record p { ethercat_at = exchanging })
  -- `ec_send_processdata` and `ec_receive_processdata`
  exchange :
      (image : Image)
      → p.ethercat_at ≡ exchanging
      → Step p (record p { image = image; ethercat_at = try_lock; exchanged = image ∷ p.exchanged })
  lock_failed : p.ethercat_at ≡ try_lock → Step p (record p { ethercat_at = EthercatAt.check_flag })
  locked :
      p.ethercat_at ≡ try_lock
      → p.data_mutex ≡ nobody
      → Step p (record p { data_mutex = ethercat; ethercat_at = copying [] p.slaves })
  copy :
      (copied : List EthercatSlave) (s s' : EthercatSlave) (left : List EthercatSlave)
      → p.ethercat_at ≡ copying copied (s ∷ left)
      → copy_slave p.image s ≡ some s'
      → Step p (record p {
        slaves = copied ++ (s' ∷ left);
        ethercat_at = copying (copied ++ (s' ∷ [])) left;
      })
  unlock :
      (copied : List EthercatSlave)
      → p.ethercat_at ≡ copying copied []
      → Step p (record p { data_mutex = nobody; ethercat_at = EthercatAt.check_flag })
  data_copy_break :
      p.data_copy_at ≡ DataCopyAt.check_flag
      → p.ethercat_running ≡ false
      → Step p (record p { data_copy_at = DataCopyAt.closed; socket_open = false })
  go_on :
      p.data_copy_at ≡ DataCopyAt.check_flag
      → p.ethercat_running ≡ true
      → Step p (record p { data_copy_at = take_lock })
  lock_taken :
      p.data_copy_at ≡ take_lock
      → p.data_mutex ≡ nobody
      → Step p (record p { data_mutex = data_copy; data_copy_at = call_back })
  show :
      p.data_copy_at ≡ call_back
      → Step p (record p {
        data_copy_at = publish_message;
        reports = p.reports ++ (called_back p.slaves ∷ []);
      })
  publish :
      p.data_copy_at ≡ publish_message
      → Step p (record p {
        data_copy_at = drop_lock;
        reports = p.reports ++ publish_report p.zmq_publish_enabled p.slaves;
      })
  lock_dropped :
      p.data_copy_at ≡ drop_lock
      → Step p (record p { data_mutex = nobody; data_copy_at = DataCopyAt.check_flag })

pub data Run (p : Process) : Process → Type 0 where
  here : Run p p
  then_step : {q r : Process} → Run p q → Step q r → Run p r
