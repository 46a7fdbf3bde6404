-- ===== src/Master/Threads/Stopping.antt =====
-- `stop` clears the flag and joins both threads: that they end.
use kddv.Base.{
  ◌≡◌, refl, subst, ap, ◌⊎◌, inl, inr, ℕ, ◌+◌, ◌≤◌, Bool, false, List, [], ◌∷◌, ◌++◌, All, length,
  length-append, arith,
}
use kddv.Slave.{EthercatSlave}
use kddv.Master.Threads.{
  Image, Owner, nobody, ethercat, data_copy, EthercatAt, exchanging, try_lock, copying, DataCopyAt,
  take_lock, call_back, publish_message, drop_lock, Process, started, Step, ethercat_break,
  exchange, lock_failed, copy, unlock, data_copy_break, lock_taken, show, publish, lock_dropped,
  Run,
}
use kddv.Master.Threads.Invariant.{EthercatInv, DataCopyInv, at_ethercat, at_data_copy}
use kddv.Master.Threads.Kept.{reached-Inv}
use kddv.Master.Threads.Turns.{
  IsTurn, Turns, ethercat_left, data_copy_left, Copies, Ready, Stopping, Stopping-Ready,
  Turns-Stopping,
}

abbrev pub Turn : Process → Type 0
Turn p = (q : Process) × (move : Step p q) × IsTurn move

-- Both threads have left their loops, so that `stop` joins them.
pub record Joined (p : Process) : Type 0 where
  pub ethercat_closed : p.ethercat_at ≡ EthercatAt.closed
  pub data_copy_closed : p.data_copy_at ≡ DataCopyAt.closed

owner_cases : (owner : Owner) → (owner ≡ nobody) ⊎ (owner ≡ ethercat) ⊎ (owner ≡ data_copy)
owner_cases nobody = inl refl
owner_cases ethercat = inr (inl refl)
owner_cases data_copy = inr (inr refl)

-- Where the thread of the bus has ended, nothing holds up the other one.
data_copy-Turn :
    {initial : List EthercatSlave} (p : Process) (at : DataCopyAt)
    → p.ethercat_at ≡ EthercatAt.closed
    → p.data_copy_at ≡ at
    → Stopping initial p
    → Joined p ⊎ Turn p
unfolding EthercatInv DataCopyInv
data_copy-Turn p DataCopyAt.check_flag closed at h = inr (_, data_copy_break at h.off, tt)
data_copy-Turn p take_lock closed at h = elim (owner_cases p.data_mutex) [
  | inl unheld ↦ inr (_, lock_taken at unheld, tt)
  | inr (inl held) ↦ absurd ((at_ethercat p closed h.inv).0 held)
  | inr (inr held) ↦ absurd (at_data_copy p at h.inv held)
]
data_copy-Turn p call_back closed at h = inr (_, show at, tt)
data_copy-Turn p publish_message closed at h = inr (_, publish at, tt)
data_copy-Turn p drop_lock closed at h = inr (_, lock_dropped at, tt)
data_copy-Turn p DataCopyAt.closed closed at h =
    inl (record { ethercat_closed = closed; data_copy_closed = at })

some-Turn :
    {initial : List EthercatSlave} (p : Process) (at : EthercatAt)
    → p.ethercat_at ≡ at
    → Stopping initial p
    → Joined p ⊎ Turn p
unfolding Ready
some-Turn p EthercatAt.check_flag at h = inr (_, ethercat_break at h.off, tt)
some-Turn p exchanging at h = inr (_, exchange p.image at, Stopping-Ready p at h)
some-Turn p try_lock at h = inr (_, lock_failed at, tt)
some-Turn p (copying copied []) at h = inr (_, unlock copied at, tt)
some-Turn p (copying copied (s ∷ left)) at h =
    let ((s', one), _) = Stopping-Ready p at h in inr (_, copy copied s s' left at one, tt)
some-Turn p EthercatAt.closed at h = data_copy-Turn p p.data_copy_at at refl h

All-end : (P : EthercatSlave → Type 0) (xs ys : List EthercatSlave) → All P (xs ++ ys) → All P ys
All-end P [] ys h = h
All-end P (x ∷ xs) ys (_, h) = All-end P xs ys h

copied-Ready :
    (initial : List EthercatSlave) (exchanged : List Image) (image : Image) (owner : Owner)
    (slaves : List EthercatSlave) (at : EthercatAt)
    → EthercatInv initial exchanged image owner slaves at
    → All (Copies image) slaves
    → Ready image slaves at × (ethercat_left slaves at ≤ 4 + length slaves)
unfolding EthercatInv Ready ethercat_left
copied-Ready initial exchanged image owner slaves EthercatAt.check_flag h copies = (tt, omega arith)
copied-Ready initial exchanged image owner slaves exchanging h copies = (copies, omega arith)
copied-Ready initial exchanged image owner slaves try_lock h copies = (copies, omega arith)
copied-Ready initial exchanged image owner slaves (copying copied left) (_, _, _, _, mixed) copies =
    (
      All-end (Copies image) copied left (subst (All (Copies image)) mixed copies),
      omega (arith, ap length mixed, length-append copied left),
    )
copied-Ready initial exchanged image owner slaves EthercatAt.closed h copies = (tt, omega arith)

data_copy_left_bounded : (at : DataCopyAt) → data_copy_left at ≤ 5
unfolding data_copy_left
data_copy_left_bounded DataCopyAt.check_flag = omega arith
data_copy_left_bounded take_lock = omega arith
data_copy_left_bounded call_back = omega arith
data_copy_left_bounded publish_message = omega arith
data_copy_left_bounded drop_lock = omega arith
data_copy_left_bounded DataCopyAt.closed = omega arith

-- Where SOEM's buffers hold the data of the slaves, after each exchange too, and the flag is cleared, the two threads take at
-- most as many steps as there are slaves and nine more, in whatever order they take turns; and until
-- both have left their loops, one of them can go on. So there is no deadlock, and `stop` joins both.
pub stop_joins :
    (image : Image) (initial : List EthercatSlave) (zmq_publish_enabled : Bool) (n : ℕ)
    (p q : Process)
    → Run (started image initial zmq_publish_enabled) p
    → p.ethercat_running ≡ false
    → All (Copies p.image) p.slaves
    → Turns p n q
    → (n ≤ length p.slaves + 9) × (Joined q ⊎ Turn q)
stop_joins image initial zmq_publish_enabled n p q run off copies turns =
    let inv = reached-Inv image initial zmq_publish_enabled run in
    let (ready, few) =
      copied-Ready initial p.exchanged p.image p.data_mutex p.slaves p.ethercat_at inv.in_loop
        copies in
    let (stopping, left) =
      Turns-Stopping p q turns (record { inv = inv; off = off; ready = ready }) in
    (
      omega (arith, few, left, data_copy_left_bounded p.data_copy_at),
      some-Turn q q.ethercat_at refl stopping,
    )
