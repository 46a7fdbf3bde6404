-- ===== src/Master/Threads/Kept.antt =====
-- Every step of the threads of src/ethercat_master.cpp keeps what holds between two steps.
use kddv.Base.{inl, ◌≡◌, refl, sym, subst, ◌∙◌, Bool, List, [], All-append, append-nil, arith}
use kddv.Slave.{EthercatSlave}
use kddv.Master.Threads.{
  Image, copy_all, data_copy, Process, started, Step, stop, ethercat_break, flag_set, exchange,
  lock_failed, locked, copy, unlock, data_copy_break, go_on, lock_taken, show, publish,
  lock_dropped, Run, here, then_step,
}
use kddv.Master.Threads.Invariant.{
  Whole, untouched, copied_all, EthercatInv, DataCopyInv, Inv, other_owner, other_owner_copy,
  at_ethercat, at_data_copy, at-Received, later-Whole, later_reports-Whole, free, Inv-Whole,
  publish_report-Whole, copy_slave_inv,
}

pub Step-Inv :
    {initial : List EthercatSlave} (p q : Process) → Inv initial p → Step p q → Inv initial q
unfolding EthercatInv DataCopyInv copy_all
Step-Inv p q inv stop = record {
  in_loop = inv.in_loop;
  in_copy = inv.in_copy;
  seen = inv.seen;
  current = inv.current;
}
Step-Inv p q inv (ethercat_break at off) = record {
  in_loop = at_ethercat p at inv;
  in_copy = inv.in_copy;
  seen = inv.seen;
  current = tt;
}
Step-Inv p q inv (flag_set at on) = record {
  in_loop = at_ethercat p at inv;
  in_copy = inv.in_copy;
  seen = inv.seen;
  current = tt;
}
Step-Inv {initial = initial} p q inv (exchange image at) = record {
  in_loop = ((at_ethercat p at inv).0, later-Whole image (at_ethercat p at inv).1);
  in_copy = inv.in_copy;
  seen = later_reports-Whole initial p.exchanged image p.reports inv.seen;
  current = inl refl;
}
Step-Inv p q inv (lock_failed at) = record {
  in_loop = at_ethercat p at inv;
  in_copy = inv.in_copy;
  seen = inv.seen;
  current = tt;
}
Step-Inv p q inv (locked at unheld) = record {
  in_loop = ([], refl, (at_ethercat p at inv).1, refl, refl);
  in_copy =
      other_owner_copy p.data_copy_at (free unheld (λ e. ground arith)) (λ e. ground arith)
        inv.in_copy;
  seen = inv.seen;
  current = at-Received p at inv;
}
Step-Inv {initial = initial} p q inv (copy copied s s' left at one) = record {
  in_loop =
      copy_slave_inv initial p.exchanged p.image p.slaves copied left s s' p.data_mutex one
        (at_ethercat p at inv);
  in_copy = inv.in_copy;
  seen = inv.seen;
  current = at-Received p at inv;
}
Step-Inv {initial = initial} p q inv (unlock copied at) =
    let (before, held, whole, done, e) = at_ethercat p at inv in
    record {
      in_loop = (
        (λ e. ground arith),
        subst (Whole initial p.exchanged) (sym (e ∙ append-nil copied)) (
            copied_all p.image (at-Received p at inv)
              (subst (Whole initial p.exchanged) (append-nil before) whole) done),
      );
      in_copy =
          other_owner_copy p.data_copy_at (λ e. ground (arith, e, held)) (λ e. ground arith)
            inv.in_copy;
      seen = inv.seen;
      current = tt;
    }
Step-Inv p q inv (data_copy_break at off) = record {
  in_loop = inv.in_loop;
  in_copy = at_data_copy p at inv;
  seen = inv.seen;
  current = inv.current;
}
Step-Inv p q inv (go_on at on) = record {
  in_loop = inv.in_loop;
  in_copy = at_data_copy p at inv;
  seen = inv.seen;
  current = inv.current;
}
Step-Inv {initial = initial} p q inv (lock_taken at unheld) = record {
  in_loop =
      other_owner initial p.exchanged p.image p.slaves p.ethercat_at
        (free unheld (λ e. ground arith)) (λ e. ground arith) inv.in_loop;
  in_copy = refl;
  seen = inv.seen;
  current = inv.current;
}
Step-Inv p q inv (show at) = record {
  in_loop = inv.in_loop;
  in_copy = at_data_copy p at inv;
  seen = All-append _ p.reports _ inv.seen (Inv-Whole p inv (at_data_copy p at inv), tt);
  current = inv.current;
}
Step-Inv {initial = initial} p q inv (publish at) = record {
  in_loop = inv.in_loop;
  in_copy = at_data_copy p at inv;
  seen = All-append _ p.reports _ inv.seen (
      publish_report-Whole initial p.exchanged p.slaves p.zmq_publish_enabled
        (Inv-Whole p inv (at_data_copy p at inv)));
  current = inv.current;
}
Step-Inv {initial = initial} p q inv (lock_dropped at) =
    let held : p.data_mutex ≡ data_copy = at_data_copy p at inv in
    record {
      in_loop =
          other_owner initial p.exchanged p.image p.slaves p.ethercat_at
            (λ e. ground (arith, e, held)) (λ e. ground arith) inv.in_loop;
      in_copy = λ e. ground arith;
      seen = inv.seen;
      current = inv.current;
    }

Run-Inv : {initial : List EthercatSlave} (p q : Process) → Inv initial p → Run p q → Inv initial q
Run-Inv p q inv here = inv
Run-Inv p q inv (then_step {q = mid} run step) = Step-Inv mid q (Run-Inv p mid inv run) step

pub reached-Inv :
    (image : Image) (initial : List EthercatSlave) (zmq_publish_enabled : Bool) {p : Process}
    → Run (started image initial zmq_publish_enabled) p
    → Inv initial p
unfolding EthercatInv DataCopyInv
reached-Inv image initial zmq_publish_enabled {p = p} run =
    Run-Inv (started image initial zmq_publish_enabled) p
      (record {
        in_loop = ((λ e. ground arith), untouched);
        in_copy = (λ e. ground arith);
        seen = tt;
        current = tt;
      })
      run
