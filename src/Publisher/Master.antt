-- ===== src/Publisher/Master.antt =====
-- The messages of `dataCopyLoop` of src/ethercat_master.cpp, and what a subscriber of
-- src/zmq_publisher.cpp gets of them.
use kddv.Base.{
  ◌≡◌, refl, sym, subst, ◌∙◌, inl, inr, ℕ, suc, Bool, Option, some, some-injective, >>=-eq-some,
  ◌>>=◌, List, [], ◌∷◌, All, All-append,
}
use kddv.Text.{Text}
use kddv.Json.{JsonLib}
use kddv.Slave.{EthercatSlave}
use kddv.Source.{convert_to_json}
use kddv.Master.Threads.{Image, Report, called_back, published, Process, started, Run}
use kddv.Master.Threads.Invariant.{Whole, reported}
use kddv.Master.Threads.Snapshots.{reports-Whole}
use kddv.Publisher.{Zmq, new_publisher, publish_msg}
use kddv.Publisher.Subscriber.{Subscriber, publish_msg_whole}

module _ (Z : Zmq) (J : JsonLib) where
  -- `publishMsg(convertToJson(slaves))` for each report that is published, at the milliseconds that
  -- the clock shows for the report.
  unfoldable pub publish_reports : (ℕ → ℕ) → ℕ → List Report → Z.Socket → Option Z.Socket
  publish_reports clock i [] publisher = some publisher
  publish_reports clock i (called_back slaves ∷ reports) publisher =
      publish_reports clock (suc i) reports publisher
  publish_reports clock i (published slaves ∷ reports) publisher = do
    sent ← publish_msg Z (convert_to_json J (clock i) slaves) publisher
    publish_reports clock (suc i) reports sent

  module _ (u : Subscriber Z) (initial : List EthercatSlave) (exchanged : List Image) where
    -- The JSON of slaves at the start, or after a whole copy.
    abbrev pub OfWhole : Text → Type 0
    OfWhole message =
        (slaves : List EthercatSlave) × (now : ℕ) × Whole initial exchanged slaves
        × (message ≡ convert_to_json J now slaves)

    sent-OfWhole :
        (message : Text) (publisher sent : Z.Socket)
        → OfWhole message
        → publish_msg Z message publisher ≡ some sent
        → All OfWhole (u.received publisher)
        → All OfWhole (u.received sent)
    sent-OfWhole message publisher sent whole h before =
        elim (u.received-send message publisher sent
          (sym (publish_msg_whole Z u message publisher) ∙ h)) [
            | inl same ↦ subst (All OfWhole) (sym same) before
            | inr next ↦
                subst (All OfWhole) (sym next)
                  (All-append OfWhole (u.received publisher) (message ∷ []) before (whole, tt))
          ]

    publish_reports-OfWhole :
        (clock : ℕ → ℕ) (i : ℕ) (reports : List Report) (publisher last : Z.Socket)
        → All (λ r. Whole initial exchanged (reported r)) reports
        → publish_reports clock i reports publisher ≡ some last
        → All OfWhole (u.received publisher)
        → All OfWhole (u.received last)
    unfolding publish_reports
    publish_reports-OfWhole clock i [] publisher last whole h before =
        subst (λ p. All OfWhole (u.received p)) (some-injective _ _ h) before
    publish_reports-OfWhole clock i (called_back slaves ∷ reports) publisher last whole h before =
        publish_reports-OfWhole clock (suc i) reports publisher last whole.1 h before
    publish_reports-OfWhole clock i (published slaves ∷ reports) publisher last whole h before =
        let message : Text = convert_to_json J (clock i) slaves in
        let (sent, one, others) = >>=-eq-some (publish_msg Z message publisher) _ h in
        publish_reports-OfWhole clock (suc i) reports sent last whole.1 others
          (sent-OfWhole message publisher sent (slaves, clock i, whole.0, refl) one before)

  -- However the two threads of the master take turns, every message that a subscriber gets of what
  -- they publish is the whole JSON text of the slaves at the start, or of the outcome of a `copyData`
  -- that ran to its end on one of the process images that `ethercatLoop` has received: no message is
  -- partly of one image and partly of another.
  pub master_messages-OfWhole :
      (u : Subscriber Z) (initial : List EthercatSlave) (image : Image) (zmq_publish_enabled : Bool)
      (p : Process) (clock : ℕ → ℕ) (port : Text) (publisher last : Z.Socket)
      → Run (started image initial zmq_publish_enabled) p
      → new_publisher Z port ≡ some publisher
      → publish_reports clock 0 p.reports publisher ≡ some last
      → All (OfWhole u initial p.exchanged) (u.received last)
  unfolding new_publisher
  master_messages-OfWhole u initial image zmq_publish_enabled p clock port publisher last run bound
        h =
      publish_reports-OfWhole u initial p.exchanged clock 0 p.reports publisher last
        (reports-Whole image initial zmq_publish_enabled p run) h
        (subst (All (OfWhole u initial p.exchanged)) (sym (u.received-bind _ publisher bound)) tt)
