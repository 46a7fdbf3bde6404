-- ===== src/Master/Found.antt =====
-- What `getSlaves` of src/ethercat_master.cpp finds on a bus of which the generator lists the slaves.
use kddv.Base.{
  ℕ, ◌≡◌, refl, sym, ap, ◌∙◌, true, false, not, some, List, [], ◌∷◌, ◌++◌, ◌==◌, if◌then◌else◌,
  append_assoc, append-nil, arith, inl, inr, Bool-cases,
}
use kddv.Text.{Text}
use kddv.Slave.{EthercatSlave, kelo_bms_slave}
use kddv.Source.{get_slave_type}
use kddv.Generator.{SdoRead, Mapped, is_positive}
use kddv.Generator.Info.{BusSlave, Bus, is_supported}
use kddv.Generator.Listed.{Listed, done, skipped, listed}
use kddv.Master.{Fresh, is_polled, push_slave, poll_slaves, get_slaves}

-- The slaves of a sniffer, less the power distributions, with the offsets left as they were.
abbrev pub polled_of : Fresh → List EthercatSlave → List EthercatSlave
polled_of fresh [] = []
polled_of fresh (s ∷ ss) =
    let rest = polled_of fresh ss in
    if s.slave_info.slave_type == kelo_bms_slave
    then rest
    else (record s {
      slave_info = record s.slave_info {
        rx_start_offset = fresh.rx_start_offset;
        tx_start_offset = fresh.tx_start_offset;
      };
    })
      ∷ rest

unsupported_type :
    (name : Text) → is_supported name ≡ false → is_polled (get_slave_type name) ≡ false
unfolding is_supported get_slave_type is_polled
unsupported_type name h = ground arith

supported_type :
    (name : Text)
    → is_supported name ≡ true
    → is_polled (get_slave_type name) ≡ not (get_slave_type name == kelo_bms_slave)
unfolding is_supported get_slave_type is_polled
supported_type name h = ground arith

poll_slaves-Listed :
    (fresh : Fresh) (fuel : ℕ) (read : SdoRead) (m : Mapped) {bs : List BusSlave} {cnt : ℕ}
    {ss : List EthercatSlave} (slaves : List EthercatSlave)
    → Listed fresh.memory fuel read m bs cnt ss
    → poll_slaves fresh bs cnt slaves ≡ some (slaves ++ polled_of fresh ss)
unfolding poll_slaves push_slave
poll_slaves-Listed fresh fuel read m slaves done = ap some (sym (append-nil slaves))
poll_slaves-Listed fresh fuel read m slaves (skipped {b = b} off l) =
    rw (unsupported_type b.name off) (poll_slaves-Listed fresh fuel read m slaves l)
poll_slaves-Listed fresh fuel read m slaves
      (listed {b = b} {ss = ss} d found o rx tx on made mapped offsets ints ids number l) =
    elim (Bool-cases (get_slave_type b.name == kelo_bms_slave)) [
      | inl is_bms ↦
          rw (supported_type b.name on ∙ ap not is_bms, is_bms)
            (poll_slaves-Listed fresh fuel read m slaves l)
      | inr other ↦
          rw (supported_type b.name on ∙ ap not other, made, other)
            (poll_slaves-Listed fresh fuel read m (slaves ++ (_ ∷ [])) l
              ∙ ap some (append_assoc slaves (_ ∷ []) (polled_of fresh ss)))
    ]

-- On a bus in SAFE_OP the master finds the slaves of `Listed`, except the power distributions.
pub get_slaves-Listed :
    (fresh : Fresh) (fuel : ℕ) (read : SdoRead) (m : Mapped) (bus : Bus) (ss : List EthercatSlave)
    (error : Text)
    → bus.init ≡ true
    → is_positive bus.config ≡ true
    → bus.safe_op ≡ true
    → Listed fresh.memory fuel read m bus.slaves 1 ss
    → get_slaves fresh bus error ≡ some (polled_of fresh ss, error)
unfolding get_slaves
get_slaves-Listed fresh fuel read m bus ss error opens configured ready l =
    rw (opens, configured, ready, poll_slaves-Listed fresh fuel read m [] l) refl
