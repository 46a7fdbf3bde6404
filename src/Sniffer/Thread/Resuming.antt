-- ===== src/Sniffer/Thread/Resuming.antt =====
-- What `startSnifferLoop` of src/packet_sniffer.cpp has made of the capture when it is stopped and
-- started again any number of times.
use kddv.Base.{
  ◌≡◌, refl, sym, ap, ◌∙◌, ℕ, ◌+◌, Bool, false, inl, inr, Bool-cases, ◌==◌, Option, none, some,
  some-injective, ◌>>=◌, List, [], ◌∷◌, ◌++◌, bit_and, pos, >>=-eq-some, arith, append_assoc,
  append-nil,
}
use kddv.Json.{JsonLib}
use kddv.Memory.{pointer, memcpy}
use kddv.Sniffer.{
  Soem, Packet, Event, PacketSniffer, packet_callback, process_datagram, copy_slaves, is_incoming,
  publish_events,
}
use kddv.Sniffer.Loop.{Arrival, sniff_loop}
use kddv.Sniffer.Thread.{
  Capture, file, interface, Capturing, idle, Step, start, stop_sniff, destroy, join, join_last,
  arrive, read_packet, end_of_file, capture_failed, broken_file, broken_interface, Run, here,
  then_step,
}

module _ (J : JsonLib) (soem : Soem) where
  -- The sniffer with its thread started or not.
  abbrev pub with_thread : Bool → PacketSniffer J → PacketSniffer J
  with_thread b s = record s { sniffer_thread = b }

  abbrev handled : Bool → PacketSniffer J × List Event → PacketSniffer J × List Event
  handled b r = (with_thread b r.0, r.1)

  -- `r` is the outcome `m` with the thread as `b` says.
  abbrev Follows :
      Bool → Option (PacketSniffer J × List Event) → Option (PacketSniffer J × List Event) → Type 0
  Follows b m r = (x : PacketSniffer J × List Event) → m ≡ some x → r ≡ some (handled b x)

  Follows-then :
      {A : Type 0} (b : Bool) (m : Option A) (f g : A → Option (PacketSniffer J × List Event))
      → ((a : A) → Follows b (f a) (g a))
      → Follows b (m >>= f) (m >>= g)
  Follows-then b none f g each x h = ground arith
  Follows-then b (some a) f g each x h = each a x h

  process_datagram_thread :
      (b : Bool) (s : PacketSniffer J) (now : ℕ) (p : Packet) (size : ℕ)
      → Follows b
          (process_datagram J soem s now p size)
          (process_datagram J soem (with_thread b s) now p size)
  unfolding process_datagram publish_events
  process_datagram_thread b s now p size =
      Follows-then b (pointer p.buffer (pos (p.header_size + soem.ec_comt_size + size))) _ _
        (λ behind. Follows-then b (memcpy 2 behind) _ _ (λ counter.
          Follows-then b (copy_slaves (p.header_size + soem.ec_comt_size) p.buffer s.slaves) _ _
            (λ slaves x h. ap (λ r. some (handled b r)) (some-injective _ _ h))))

  same-Follows :
      (b : Bool) (s : PacketSniffer J) → Follows b (some (s, [])) (some (with_thread b s, []))
  same-Follows b s x h = ap (λ r. some (handled b r)) (some-injective _ _ h)

  pub packet_callback_thread :
      (b : Bool) (s : PacketSniffer J) (now : ℕ) (p : Packet)
      → Follows b (packet_callback J soem s now p) (packet_callback J soem (with_thread b s) now p)
  unfolding packet_callback
  packet_callback_thread b s now p = elim (Bool-cases (is_incoming p)) [
    | inr foreign ↦ rw foreign (same-Follows b s)
    | inl ring ↦ rw ring (
        Follows-then b (pointer p.buffer (pos p.header_size)) _ _ (λ at.
          Follows-then b (memcpy soem.ec_comt_size at) _ _ (λ header.
            elim (Bool-cases (soem.command header == soem.ec_cmd_lrw)) [
              | inr other ↦ rw other (same-Follows b s)
              | inl lrw ↦
                  rw lrw (process_datagram_thread b s now p (bit_and (soem.dlength header) 0x0fff))
            ])))
  ]

  sniff_loop_snoc :
      (s mid last : PacketSniffer J) (arrivals : List Arrival) (a : Arrival)
      (first more : List Event)
      → sniff_loop J soem s arrivals ≡ some (mid, first)
      → packet_callback J soem mid a.0 a.1 ≡ some (last, more)
      → sniff_loop J soem s (arrivals ++ (a ∷ [])) ≡ some (last, first ++ more)
  unfolding sniff_loop
  sniff_loop_snoc s mid last [] a first more h one =
      let made = some-injective _ _ (sym h) in
      rw (ap (λ r. r.1) made, sym (ap (λ r. r.0) made), one, append-nil more) refl
  sniff_loop_snoc s mid last ((now, p) ∷ arrivals) a first more h one =
      let ((next, events), head, h₁) = >>=-eq-some (packet_callback J soem s now p) _ h in
      let ((end, others), tail, made) = >>=-eq-some (sniff_loop J soem next arrivals) _ h₁ in
      let ends = some-injective _ _ made in
      let step =
        sniff_loop_snoc next end last arrivals a others more tail (rw (ap (λ r. r.0) ends) one) in
      rw (head, step, sym (ap (λ r. r.1) ends), append_assoc events others more) refl

  -- What is left of the capture once `consumed` has been read from it.
  abbrev pub Left : Capture → List Arrival → Capture → Type 0
  Left (file all) consumed now =
      (rest : List Arrival) × (now ≡ file rest) × (all ≡ consumed ++ rest)
  Left interface consumed now = now ≡ interface

  -- The packets that libtins has handed on, in their order.
  abbrev handed_after : {p q : Capturing J} → List Arrival → Step J soem p q → List Arrival
  handed_after before (arrive a _ _ _ _ _) = before ++ (a ∷ [])
  handed_after before (read_packet a _ _ _ _ _ _) = before ++ (a ∷ [])
  handed_after before _ = before

  unfoldable pub handed : {p q : Capturing J} → Run J soem p q → List Arrival
  handed here = []
  handed (then_step run move) = handed_after (handed run) move

  -- The packets have been handled, one after the other and none of them lost.
  abbrev pub Consumed : PacketSniffer J → Capture → List Arrival → Capturing J → Type 0
  Consumed s capture consumed p =
      (sniff_loop J soem (with_thread false s) consumed
        ≡ some (with_thread false p.sniffer, p.events))
      × Left capture consumed p.capture

  abbrev packets_of : Capture → List Arrival
  packets_of (file packets) = packets
  packets_of interface = []

  Left-read :
      (capture now : Capture) (consumed rest : List Arrival) (a : Arrival)
      → now ≡ file (a ∷ rest)
      → Left capture consumed now
      → Left capture (consumed ++ (a ∷ [])) (file rest)
  Left-read (file all) now consumed rest a at (r, left, whole) = (
    rest,
    refl,
    whole
        ∙ ap (λ l. consumed ++ l) (ap packets_of (sym left ∙ at))
        ∙ sym (append_assoc consumed (a ∷ []) rest),
  )
  Left-read interface now consumed rest a at left = absurd (ground (arith, at, left))

  Left-arrive :
      (capture now : Capture) (consumed more : List Arrival)
      → now ≡ interface
      → Left capture consumed now
      → Left capture more now
  Left-arrive (file all) now consumed more at (r, left, whole) = absurd (ground (arith, at, left))
  Left-arrive interface now consumed more at left = left

  Step-Consumed :
      (s : PacketSniffer J) (capture : Capture) (consumed : List Arrival) (p q : Capturing J)
      → Consumed s capture consumed p
      → (move : Step J soem p q) → Consumed s capture (handed_after consumed move) q
  Step-Consumed s capture consumed p q c (start _ _) = c
  Step-Consumed s capture consumed p q c (stop_sniff _) = c
  Step-Consumed s capture consumed p q c (destroy _) = c
  Step-Consumed s capture consumed p q c (join _ _) = c
  Step-Consumed s capture consumed p q c (join_last _ _) = c
  Step-Consumed s capture consumed p q c (end_of_file _ _) = c
  Step-Consumed s capture consumed p q c (capture_failed _) = c
  Step-Consumed s capture consumed p q c (broken_file _ _ _ _) = c
  Step-Consumed s capture consumed p q c (broken_interface _ _ _ _) = c
  Step-Consumed s capture consumed p q (made, left) (arrive a after events _ at h) = (
    sniff_loop_snoc _ _ _ consumed a p.events events made
        (packet_callback_thread false p.sniffer a.0 a.1 (after, events) h),
    Left-arrive capture p.capture consumed _ at left,
  )
  Step-Consumed s capture consumed p q (made, left) (read_packet a rest after events _ at h) = (
    sniff_loop_snoc _ _ _ consumed a p.events events made
        (packet_callback_thread false p.sniffer a.0 a.1 (after, events) h),
    Left-read capture p.capture consumed rest a at left,
  )

  Left-none : (capture : Capture) → Left capture [] capture
  Left-none (file all) = (all, refl, refl)
  Left-none interface = refl

  -- However often a sniffer is started and stopped, the packets that libtins hands on to it are
  -- handled as by a single `sniff_loop`, with the same slaves and events: none of them is handled
  -- twice or passed over. Of a file they are the first ones, with the rest of it still to be read.
  pub resumed :
      (s : PacketSniffer J) (capture : Capture) (p : Capturing J)
      (run : Run J soem (idle J s capture) p)
      → Consumed s capture (handed run) p
  unfolding sniff_loop handed
  resumed s capture p here = (refl, Left-none capture)
  resumed s capture p (then_step {q = mid} run move) =
      Step-Consumed s capture (handed run) mid p (resumed s capture mid run) move
