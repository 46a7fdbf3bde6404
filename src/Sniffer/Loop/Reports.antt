-- ===== src/Sniffer/Loop/Reports.antt =====
-- What the UI and the subscribers get from the sniffer of src/packet_sniffer.cpp.
use kddv.Base.{
  ℕ, ◌*◌, ◌≡◌, refl, sym, subst, ap, inl, inr, Bool, true, false, Bool-cases, ◌==◌, some,
  some-injective, >>=-eq-some, List, [], ◌∷◌, ◌++◌, length,
}
use kddv.Json.{JsonLib}
use kddv.Slave.{EthercatSlave}
use kddv.Source.{convert_to_json}
use kddv.Sniffer.{
  Soem, Event, working_counter, display, publish, PacketSniffer, packet_callback, counter_events,
  publish_events,
}
use kddv.Sniffer.Loop.{Arrival, sniff_loop}
use kddv.Sniffer.Loop.Outcome.{packet_callback_outcome}
use kddv.Sniffer.Loop.Latest.{packet_callback_latest}

-- Each display is followed at once by the message of the same slaves if publishing is on, and there
-- is no other message.
pub data Reported (J : JsonLib) (publishing : Bool) : List Event → Type 0 where
  nothing : Reported J publishing []
  counted :
      (wkcnt expected : ℕ) {events : List Event}
      → Reported J publishing events
      → Reported J publishing (working_counter wkcnt expected ∷ events)
  shown :
      (slaves : List EthercatSlave) {events : List Event}
      → publishing ≡ false
      → Reported J publishing events
      → Reported J publishing (display slaves ∷ events)
  shown_and_sent :
      (slaves : List EthercatSlave) (now : ℕ) {events : List Event}
      → publishing ≡ true
      → Reported J publishing events
      → Reported J publishing (display slaves ∷ publish (convert_to_json J now slaves) ∷ events)

module _ (J : JsonLib) where
  append-Reported :
      {publishing : Bool} {xs ys : List Event}
      → Reported J publishing xs
      → Reported J publishing ys
      → Reported J publishing (xs ++ ys)
  append-Reported Reported.nothing h = h
  append-Reported (Reported.counted wkcnt expected r) h =
      Reported.counted wkcnt expected (append-Reported r h)
  append-Reported (Reported.shown slaves off r) h = Reported.shown slaves off (append-Reported r h)
  append-Reported (Reported.shown_and_sent slaves now on r) h =
      Reported.shown_and_sent slaves now on (append-Reported r h)

  counter_events-Reported :
      (publishing : Bool) (expected wkcnt : ℕ)
      → Reported J publishing (counter_events expected wkcnt)
  unfolding counter_events
  counter_events-Reported publishing expected wkcnt = elim (Bool-cases (expected == wkcnt)) [
    | inl e ↦ rw e Reported.nothing
    | inr e ↦ rw e (Reported.counted wkcnt expected Reported.nothing)
  ]

  display-Reported :
      (s : PacketSniffer J) (now : ℕ) (slaves : List EthercatSlave)
      → Reported J s.zmq_publish_enabled (display slaves ∷ publish_events J s now slaves)
  unfolding publish_events
  display-Reported s now slaves = elim (Bool-cases s.zmq_publish_enabled) [
    | inl on ↦ rw on (Reported.shown_and_sent slaves now refl Reported.nothing)
    | inr off ↦ rw off (Reported.shown slaves refl Reported.nothing)
  ]

  module _ (soem : Soem) where
    packet_callback-Reported :
        (s : PacketSniffer J) (arrival : Arrival) (r : PacketSniffer J × List Event)
        → packet_callback J soem s arrival.0 arrival.1 ≡ some r
        → Reported J s.zmq_publish_enabled r.1
    packet_callback-Reported s (now, p) r h = elim (packet_callback_outcome J soem s now p r h) [
      | inl same ↦ rw same Reported.nothing
      | inr (slaves, wkcnt, copied, made) ↦ rw made (
          append-Reported
            (counter_events-Reported s.zmq_publish_enabled (length s.slaves * 3) wkcnt)
            (display-Reported s now slaves))
    ]

    -- Whatever packets arrive: where publishing is on, each call of the UI is followed at once by the
    -- JSON message of the same slaves, and nothing else is published; where it is off, nothing is.
    pub sniff_loop-Reported :
        (s s' : PacketSniffer J) (arrivals : List Arrival) (events : List Event)
        → sniff_loop J soem s arrivals ≡ some (s', events)
        → Reported J s.zmq_publish_enabled events
    unfolding sniff_loop
    sniff_loop-Reported s s' [] events h =
        rw (sym (ap (λ r. r.1) (some-injective _ _ h))) Reported.nothing
    sniff_loop-Reported s s' ((now, p) ∷ arrivals) events h =
        let ((mid, first), one, h₁) = >>=-eq-some (packet_callback J soem s now p) _ h in
        let ((end, more), others, made) = >>=-eq-some (sniff_loop J soem mid arrivals) _ h₁ in
        let same : mid.zmq_publish_enabled ≡ s.zmq_publish_enabled =
          ap (λ m. m.zmq_publish_enabled)
            (packet_callback_latest J soem s (now, p) (mid, first) one) in
        subst (Reported J s.zmq_publish_enabled) (ap (λ r. r.1) (some-injective _ _ made)) (
          append-Reported (packet_callback-Reported s (now, p) (mid, first) one) (
            subst (λ b. Reported J b more) same (sniff_loop-Reported mid end arrivals more others)))
