-- ===== src/Master/Threads/Invariant.antt =====
-- What holds of the threads of src/ethercat_master.cpp between any two steps.
use kddv.Base.{
  ◌⊎◌, inr, ◌≡◌, ◌≢◌, sym, subst, ap, ◌∙◌, Bool, true, false, some, some-injective, >>=-eq-some,
  List, [], ◌∷◌, ◌++◌, All, append_assoc, arith,
}
use kddv.Slave.{EthercatSlave}
use kddv.Master.Threads.{
  Image, copy_slave, copy_all, Owner, nobody, ethercat, data_copy, EthercatAt, exchanging, try_lock,
  copying, DataCopyAt, take_lock, call_back, publish_message, drop_lock, Report, called_back,
  published, Process, publish_report,
}

abbrev pub Among : Image → List Image → Type 0
Among image [] = ⊥
Among image (x ∷ images) = (image ≡ x) ⊎ Among image images

-- The slaves at the start, or after `copyData` ran to its end, each time on one of the images that
-- were received.
pub data Whole (initial : List EthercatSlave) (exchanged : List Image)
    : List EthercatSlave → Type 0 where
  untouched : Whole initial exchanged initial
  copied_all :
      (image : Image) {before after : List EthercatSlave}
      → Among image exchanged
      → Whole initial exchanged before
      → copy_all image before ≡ some after
      → Whole initial exchanged after

pub later-Whole :
    {initial : List EthercatSlave} {exchanged : List Image} {slaves : List EthercatSlave}
    (next : Image)
    → Whole initial exchanged slaves
    → Whole initial (next ∷ exchanged) slaves
later-Whole next untouched = untouched
later-Whole next (copied_all image among before copied) =
    copied_all image (inr among) (later-Whole next before) copied

abbrev pub reported : Report → List EthercatSlave
reported (called_back slaves) = slaves
reported (published slaves) = slaves

pub later_reports-Whole :
    (initial : List EthercatSlave) (exchanged : List Image) (next : Image) (reports : List Report)
    → All (λ r. Whole initial exchanged (reported r)) reports
    → All (λ r. Whole initial (next ∷ exchanged) (reported r)) reports
later_reports-Whole initial exchanged next [] h = tt
later_reports-Whole initial exchanged next (r ∷ reports) h =
    (later-Whole next h.0, later_reports-Whole initial exchanged next reports h.1)

-- Inside the loop of `copyData` the thread has the mutex, and the slaves are partly from before the
-- copy and partly from the image.
unfoldable pub EthercatInv :
    List EthercatSlave → List Image → Image → Owner → List EthercatSlave → EthercatAt → Type 0
EthercatInv initial exchanged image owner slaves (copying copied left) =
    (before : List EthercatSlave) × (owner ≡ ethercat)
    × Whole initial exchanged (before ++ left)
    × (copy_all image before ≡ some copied)
    × (slaves ≡ copied ++ left)
EthercatInv initial exchanged image owner slaves EthercatAt.check_flag =
    (owner ≢ ethercat) × Whole initial exchanged slaves
EthercatInv initial exchanged image owner slaves exchanging =
    (owner ≢ ethercat) × Whole initial exchanged slaves
EthercatInv initial exchanged image owner slaves try_lock =
    (owner ≢ ethercat) × Whole initial exchanged slaves
EthercatInv initial exchanged image owner slaves EthercatAt.closed =
    (owner ≢ ethercat) × Whole initial exchanged slaves

-- From the exchange to the end of the copy the image is one of those received.
abbrev pub Received : Image → List Image → EthercatAt → Type 0
Received image exchanged try_lock = Among image exchanged
Received image exchanged (copying copied left) = Among image exchanged
Received image exchanged EthercatAt.check_flag = Unit {0}
Received image exchanged exchanging = Unit {0}
Received image exchanged EthercatAt.closed = Unit {0}

unfoldable pub DataCopyInv : Owner → DataCopyAt → Type 0
DataCopyInv owner DataCopyAt.check_flag = owner ≢ data_copy
DataCopyInv owner take_lock = owner ≢ data_copy
DataCopyInv owner call_back = owner ≡ data_copy
DataCopyInv owner publish_message = owner ≡ data_copy
DataCopyInv owner drop_lock = owner ≡ data_copy
DataCopyInv owner DataCopyAt.closed = owner ≢ data_copy

pub record Inv (initial : List EthercatSlave) (p : Process) : Type 0 where
  pub in_loop : EthercatInv initial p.exchanged p.image p.data_mutex p.slaves p.ethercat_at
  pub in_copy : DataCopyInv p.data_mutex p.data_copy_at
  pub seen : All (λ r. Whole initial p.exchanged (reported r)) p.reports
  pub current : Received p.image p.exchanged p.ethercat_at

copy_all_snoc :
    (image : Image) (before : List EthercatSlave) (s s' : EthercatSlave)
    {copied : List EthercatSlave}
    → copy_all image before ≡ some copied
    → copy_slave image s ≡ some s'
    → copy_all image (before ++ (s ∷ [])) ≡ some (copied ++ (s' ∷ []))
unfolding copy_all
copy_all_snoc image [] s s' h one = rw one (ap (λ c. some (c ++ (s' ∷ []))) (some-injective _ _ h))
copy_all_snoc image (b ∷ before) s s' h one =
    let (b', first, h₁) = >>=-eq-some (copy_slave image b) _ h in
    let (rest, others, h₂) = >>=-eq-some (copy_all image before) _ h₁ in
    rw (first, copy_all_snoc image before s s' others one)
      (ap (λ c. some (c ++ (s' ∷ []))) (some-injective _ _ h₂))

-- The mutex in the hands of the other thread, or of nobody, is the same to a thread.
pub other_owner :
    (initial : List EthercatSlave) (exchanged : List Image) (image : Image)
    (slaves : List EthercatSlave) (at : EthercatAt) {owner owner' : Owner}
    → owner ≢ ethercat
    → owner' ≢ ethercat
    → EthercatInv initial exchanged image owner slaves at
    → EthercatInv initial exchanged image owner' slaves at
unfolding EthercatInv
other_owner initial exchanged image slaves (copying copied left) off off' (_, has, _, _, _) =
    absurd (off has)
other_owner initial exchanged image slaves EthercatAt.check_flag off off' (_, whole) = (off', whole)
other_owner initial exchanged image slaves exchanging off off' (_, whole) = (off', whole)
other_owner initial exchanged image slaves try_lock off off' (_, whole) = (off', whole)
other_owner initial exchanged image slaves EthercatAt.closed off off' (_, whole) = (off', whole)

pub other_owner_copy :
    (at : DataCopyAt) {owner owner' : Owner}
    → owner ≢ data_copy
    → owner' ≢ data_copy
    → DataCopyInv owner at
    → DataCopyInv owner' at
unfolding DataCopyInv
other_owner_copy DataCopyAt.check_flag off off' h = off'
other_owner_copy take_lock off off' h = off'
other_owner_copy call_back off off' h = absurd (off h)
other_owner_copy publish_message off off' h = absurd (off h)
other_owner_copy drop_lock off off' h = absurd (off h)
other_owner_copy DataCopyAt.closed off off' h = off'

-- Where the copying thread does not have the mutex, the slaves are whole.
EthercatInv-Whole :
    (initial : List EthercatSlave) (exchanged : List Image) (image : Image)
    (slaves : List EthercatSlave) (at : EthercatAt) {owner : Owner}
    → owner ≢ ethercat
    → EthercatInv initial exchanged image owner slaves at
    → Whole initial exchanged slaves
unfolding EthercatInv
EthercatInv-Whole initial exchanged image slaves (copying copied left) off (_, has, _, _, _) =
    absurd (off has)
EthercatInv-Whole initial exchanged image slaves EthercatAt.check_flag off (_, whole) = whole
EthercatInv-Whole initial exchanged image slaves exchanging off (_, whole) = whole
EthercatInv-Whole initial exchanged image slaves try_lock off (_, whole) = whole
EthercatInv-Whole initial exchanged image slaves EthercatAt.closed off (_, whole) = whole

pub at_ethercat :
    {initial : List EthercatSlave} (p : Process) {at : EthercatAt}
    → p.ethercat_at ≡ at
    → Inv initial p
    → EthercatInv initial p.exchanged p.image p.data_mutex p.slaves at
at_ethercat {initial = initial} p e inv =
    subst (EthercatInv initial p.exchanged p.image p.data_mutex p.slaves) e inv.in_loop

pub at_data_copy :
    {initial : List EthercatSlave} (p : Process) {at : DataCopyAt}
    → p.data_copy_at ≡ at
    → Inv initial p
    → DataCopyInv p.data_mutex at
at_data_copy p e inv = subst (DataCopyInv p.data_mutex) e inv.in_copy

pub at-Received :
    {initial : List EthercatSlave} (p : Process) {at : EthercatAt}
    → p.ethercat_at ≡ at
    → Inv initial p
    → Received p.image p.exchanged at
at-Received p e inv = subst (Received p.image p.exchanged) e inv.current

pub free : {owner other : Owner} → owner ≡ nobody → other ≢ nobody → owner ≢ other
free e off h = off (sym h ∙ e)

pub Inv-Whole :
    {initial : List EthercatSlave} (p : Process)
    → Inv initial p
    → p.data_mutex ≡ data_copy
    → Whole initial p.exchanged p.slaves
Inv-Whole {initial = initial} p inv held =
    EthercatInv-Whole initial p.exchanged p.image p.slaves p.ethercat_at
      (λ e. ground (arith, e, held)) inv.in_loop

pub publish_report-Whole :
    (initial : List EthercatSlave) (exchanged : List Image) (slaves : List EthercatSlave)
    (enabled : Bool)
    → Whole initial exchanged slaves
    → All (λ r. Whole initial exchanged (reported r)) (publish_report enabled slaves)
unfolding publish_report
publish_report-Whole initial exchanged slaves true whole = (whole, tt)
publish_report-Whole initial exchanged slaves false whole = tt

pub copy_slave_inv :
    (initial : List EthercatSlave) (exchanged : List Image) (image : Image)
    (slaves copied left : List EthercatSlave) (s s' : EthercatSlave) (owner : Owner)
    → copy_slave image s ≡ some s'
    → EthercatInv initial exchanged image owner slaves (copying copied (s ∷ left))
    → EthercatInv initial exchanged image owner
        (copied ++ (s' ∷ left))
        (copying (copied ++ (s' ∷ [])) left)
unfolding EthercatInv
copy_slave_inv initial exchanged image slaves copied left s s' owner one
      (before, held, whole, done, _) =
    (
      before ++ (s ∷ []),
      held,
      subst (Whole initial exchanged) (sym (append_assoc before (s ∷ []) left)) whole,
      copy_all_snoc image before s s' done one,
      sym (append_assoc copied (s' ∷ []) left),
    )
