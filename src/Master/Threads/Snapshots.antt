-- ===== src/Master/Threads/Snapshots.antt =====
-- What the UI and the subscribers see is always one whole process image.
use kddv.Base.{Bool, List, All}
use kddv.Slave.{EthercatSlave}
use kddv.Master.Threads.{Image, Process, started, Run}
use kddv.Master.Threads.Invariant.{Whole, reported}
use kddv.Master.Threads.Kept.{reached-Inv}

-- However the two threads take turns, and wherever `stop` comes between, every list of slaves that
-- the callback is called with or that is published is the one at the start, or the outcome of a
-- `copyData` that ran to its end on one of the process images that `ethercatLoop` has received: at the
-- call it is not partly from one image and partly from another. (What a UI does with the slaves after
-- the call is not said.)
pub reports-Whole :
    (image : Image) (initial : List EthercatSlave) (zmq_publish_enabled : Bool) (p : Process)
    → Run (started image initial zmq_publish_enabled) p
    → All (λ r. Whole initial p.exchanged (reported r)) p.reports
reports-Whole image initial zmq_publish_enabled p run =
    (reached-Inv image initial zmq_publish_enabled run).seen
