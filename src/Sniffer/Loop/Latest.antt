-- ===== src/Sniffer/Loop/Latest.antt =====
-- What the sniffer of src/packet_sniffer.cpp holds after any packets.
use kddv.Base.{
  ℕ, ◌*◌, ◌≡◌, refl, sym, subst, ◌∙◌, ap, inl, inr, Bool-cases, ◌==◌, some, some-injective,
  >>=-eq-some, List, [], ◌∷◌, ◌++◌, map, length,
}
use kddv.Json.{JsonLib}
use kddv.Slave.{EthercatSlave}
use kddv.Sniffer.{
  Soem, Event, working_counter, display, publish, PacketSniffer, packet_callback, counter_events,
  publish_events,
}
use kddv.Sniffer.Loop.{Arrival, sniff_loop}
use kddv.Sniffer.Loop.Outcome.{packet_callback_outcome}
use kddv.Sniffer.Loop.Shapes.{shape}
use kddv.Sniffer.Loop.Bounds.{packet_callback-shapes}

-- The slaves of the last display, or those before.
abbrev pub last_displayed : List EthercatSlave → List Event → List EthercatSlave
last_displayed slaves [] = slaves
last_displayed slaves (display new ∷ events) = last_displayed new events
last_displayed slaves (working_counter wkcnt expected ∷ events) = last_displayed slaves events
last_displayed slaves (publish message ∷ events) = last_displayed slaves events

last_displayed-append :
    (slaves : List EthercatSlave) (xs ys : List Event)
    → last_displayed slaves (xs ++ ys) ≡ last_displayed (last_displayed slaves xs) ys
last_displayed-append slaves [] ys = refl
last_displayed-append slaves (display new ∷ xs) ys = last_displayed-append new xs ys
last_displayed-append slaves (working_counter wkcnt expected ∷ xs) ys =
    last_displayed-append slaves xs ys
last_displayed-append slaves (publish message ∷ xs) ys = last_displayed-append slaves xs ys

last_displayed-counter :
    (slaves : List EthercatSlave) (expected wkcnt : ℕ) (events : List Event)
    → last_displayed slaves (counter_events expected wkcnt ++ events) ≡ last_displayed slaves events
unfolding counter_events
last_displayed-counter slaves expected wkcnt events = elim (Bool-cases (expected == wkcnt)) [
  | inl e ↦ rw e refl
  | inr e ↦ rw e refl
]

module _ (J : JsonLib) (soem : Soem) where
  last_displayed-publish :
      (s : PacketSniffer J) (now : ℕ) (slaves : List EthercatSlave)
      → last_displayed slaves (publish_events J s now slaves) ≡ slaves
  unfolding publish_events
  last_displayed-publish s now slaves = elim (Bool-cases s.zmq_publish_enabled) [
    | inl e ↦ rw e refl
    | inr e ↦ rw e refl
  ]

  pub packet_callback_latest :
      (s : PacketSniffer J) (arrival : Arrival) (r : PacketSniffer J × List Event)
      → packet_callback J soem s arrival.0 arrival.1 ≡ some r
      → r.0 ≡ record s { slaves = last_displayed s.slaves r.1 }
  packet_callback_latest s (now, p) r h = elim (packet_callback_outcome J soem s now p r h) [
    | inl same ↦ rw same refl
    | inr (slaves, wkcnt, copied, made) ↦
        rw
          (
            made,
            last_displayed-counter s.slaves (length s.slaves * 3) wkcnt
                (display slaves ∷ publish_events J s now slaves),
            last_displayed-publish s now slaves,
          )
          refl
  ]

  latest_then :
      (s mid last : PacketSniffer J) (first more : List Event)
      → mid ≡ record s { slaves = last_displayed s.slaves first }
      → last ≡ record mid { slaves = last_displayed mid.slaves more }
      → last ≡ record s { slaves = last_displayed s.slaves (first ++ more) }
  latest_then s mid last first more before after =
      after
      ∙ ap {A = PacketSniffer J} {B = PacketSniffer J}
          (λ m. record m { slaves = last_displayed m.slaves more }) before
      ∙ ap {A = List EthercatSlave} {B = PacketSniffer J} (λ l. record s { slaves = l })
          (sym (last_displayed-append s.slaves first more))

  -- After any packets the sniffer holds the slaves that it displayed last, or those from the start
  -- if it displayed none; their slave information and classes, the config and the publishing are as
  -- at the start.
  pub sniff_loop_latest :
      (s s' : PacketSniffer J) (arrivals : List Arrival) (events : List Event)
      → sniff_loop J soem s arrivals ≡ some (s', events)
      → (s' ≡ record s { slaves = last_displayed s.slaves events })
        × (map shape s'.slaves ≡ map shape s.slaves)
  unfolding sniff_loop
  sniff_loop_latest s s' [] events h =
      let made = some-injective _ _ (sym h) in
      rw (ap (λ r. r.0) made, ap (λ r. r.1) made) (refl, refl)
  sniff_loop_latest s s' ((now, p) ∷ arrivals) events h =
      let ((mid, first), one, h₁) = >>=-eq-some (packet_callback J soem s now p) _ h in
      let ((end, more), others, made) = >>=-eq-some (sniff_loop J soem mid arrivals) _ h₁ in
      let (held, kept) = sniff_loop_latest mid end arrivals more others in
      let held_first = packet_callback_latest s (now, p) (mid, first) one in
      let kept_first = packet_callback-shapes J soem s now p (mid, first) one in
      subst
        (λ r.
          (r.0 ≡ record s { slaves = last_displayed s.slaves r.1 })
          × (map shape r.0.slaves ≡ map shape s.slaves))
        (some-injective _ _ made)
        (latest_then s mid end first more held_first held, kept ∙ kept_first)
