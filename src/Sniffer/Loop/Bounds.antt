-- ===== src/Sniffer/Loop/Bounds.antt =====
-- Which packets the sniffer reads out of bounds: the code does not look at their length.
use kddv.Base.{
  ℕ, ◌+◌, ◌%◌, ◌≡◌, refl, sym, ap, ◌∙◌, inl, inr, Bool, true, false, not, ◌&&◌, ◌||◌, Bool-cases,
  ◌==◌, pos, Option, none, some, Option-cases, ◌>>=◌, List, [], ◌∷◌, map, take, drop, length-drop,
  bit_and_0fff, arith,
}
use kddv.Memory.{memcpy, pointer}
use kddv.Json.{JsonLib}
use kddv.Slave.{SlaveInfo}
use kddv.Sniffer.{
  Soem, Packet, Event, PacketSniffer, packet_callback, process_datagram, copy_slaves, is_incoming,
}
use kddv.Sniffer.Filter.{header_bytes}
use kddv.Sniffer.Loop.Outcome.{packet_callback_outcome}
use kddv.Sniffer.Loop.{Arrival, sniff_loop}
use kddv.Sniffer.Loop.Shapes.{
  is_some, lies_in, shape, shape_in, all_of, copy_slaves-reads, copy_slaves-shapes,
}

abbrev pub datagram_end : Soem → Packet → ℕ
datagram_end soem p = p.header_size + soem.ec_comt_size + soem.dlength (header_bytes soem p) % 4096

-- A packet is in range if it is not from the ring; or if its header lies in the frame and it is not a
-- logical read-write; or if also the working counter and the data of each slave lie in the frame.
abbrev pub packet_in : Soem → List (SlaveInfo × ℕ × ℕ) → Packet → Bool
packet_in soem shapes p =
    not (is_incoming p)
    || (lies_in p.buffer (pos p.header_size) soem.ec_comt_size
        && (not (soem.command (header_bytes soem p) == soem.ec_cmd_lrw)
            || (lies_in p.buffer (pos (datagram_end soem p)) 2
                && all_of (shape_in (p.header_size + soem.ec_comt_size) p.buffer) shapes)))

is_some-done :
    {A B : Type 0} (m : Option A) (f : A → B) → is_some (m >>= λ a. some (f a)) ≡ is_some m
is_some-done none f = refl
is_some-done (some a) f = refl

-- A `memcpy` out of the buffer, and what follows.
read_then :
    {A : Type 0} (buffer : List ℕ) (n size : ℕ) (f : List ℕ → Option A) {b : Bool}
    → is_some (f (take size (drop n buffer))) ≡ b
    → is_some (do at ← pointer buffer (pos n); bytes ← memcpy size at; f bytes)
      ≡ (lies_in buffer (pos n) size && b)
unfolding pointer memcpy
read_then buffer n size f h = ground (arith, length-drop {0} n buffer)

process_datagram-reads :
    (J : JsonLib) (soem : Soem) (s : PacketSniffer J) (now : ℕ) (p : Packet) (size : ℕ)
    → is_some (process_datagram J soem s now p size) ≡ (
        lies_in p.buffer (pos (p.header_size + soem.ec_comt_size + size)) 2
        && all_of (shape_in (p.header_size + soem.ec_comt_size) p.buffer) (map shape s.slaves))
unfolding process_datagram
process_datagram-reads J soem s now p size =
    let start_offset : ℕ = p.header_size + soem.ec_comt_size in
    read_then p.buffer (start_offset + size) 2 _ (
      is_some-done (copy_slaves start_offset p.buffer s.slaves) _
      ∙ copy_slaves-reads start_offset p.buffer s.slaves)

packet_callback-reads :
    (J : JsonLib) (soem : Soem) (s : PacketSniffer J) (now : ℕ) (p : Packet)
    → is_some (packet_callback J soem s now p) ≡ packet_in soem (map shape s.slaves) p
unfolding packet_callback
packet_callback-reads J soem s now p = elim (Bool-cases (is_incoming p)) [
  | inr foreign ↦ rw foreign refl
  | inl ring ↦ rw ring (
      read_then p.buffer p.header_size soem.ec_comt_size _
        (elim (Bool-cases (soem.command (header_bytes soem p) == soem.ec_cmd_lrw)) [
          | inr other ↦ rw other refl
          | inl lrw ↦
              rw (lrw, bit_and_0fff)
                (process_datagram-reads J soem s now p (soem.dlength (header_bytes soem p) % 4096))
        ]))
]

pub packet_callback-shapes :
    (J : JsonLib) (soem : Soem) (s : PacketSniffer J) (now : ℕ) (p : Packet)
    (r : PacketSniffer J × List Event)
    → packet_callback J soem s now p ≡ some r
    → map shape r.0.slaves ≡ map shape s.slaves
packet_callback-shapes J soem s now p r h = elim (packet_callback_outcome J soem s now p r h) [
  | inl same ↦ rw same refl
  | inr (slaves, wkcnt, copied, made) ↦
      rw made (copy_slaves-shapes (p.header_size + soem.ec_comt_size) p.buffer s.slaves copied)
]

-- The packets that arrive are read without a read out of bounds exactly if each of them is in range for
-- the classes and offsets of the slaves at the start: what is read before never changes these.
pub sniff_loop_in_range :
    (J : JsonLib) (soem : Soem) (s : PacketSniffer J) (arrivals : List Arrival)
    → is_some (sniff_loop J soem s arrivals)
      ≡ all_of (λ a. packet_in soem (map shape s.slaves) a.1) arrivals
unfolding sniff_loop
sniff_loop_in_range J soem s [] = refl
sniff_loop_in_range J soem s ((now, p) ∷ arrivals) =
    elim (Option-cases (packet_callback J soem s now p)) [
      | inl e ↦
          let out : packet_in soem (map shape s.slaves) p ≡ false =
            sym (packet_callback-reads J soem s now p) ∙ ap is_some e in
          rw (e, out) refl
      | inr ((s', events), e) ↦
          let inside : packet_in soem (map shape s.slaves) p ≡ true =
            sym (packet_callback-reads J soem s now p) ∙ ap is_some e in
          let same = packet_callback-shapes J soem s now p (s', events) e in
          let more = sniff_loop_in_range J soem s' arrivals in
          rw (e, inside)
            (is_some-done (sniff_loop J soem s' arrivals) _
              ∙ more
              ∙ ap (λ shapes. all_of (λ a. packet_in soem shapes a.1) arrivals) same)
    ]
