-- ===== src/Sniffer/Loop/Outcome.antt =====
-- What a callback of src/packet_sniffer.cpp that succeeds has done.
use kddv.Base.{
  ℕ, ◌+◌, ◌*◌, ◌≡◌, sym, ◌⊎◌, inl, inr, Bool-cases, ◌==◌, pos, some, some-injective, >>=-eq-some,
  List, [], ◌∷◌, ◌++◌, length, bit_and,
}
use kddv.Memory.{memcpy, pointer, u16_at}
use kddv.Json.{JsonLib}
use kddv.Slave.{EthercatSlave}
use kddv.Sniffer.{
  Soem, Packet, Event, display, PacketSniffer, packet_callback, process_datagram, copy_slaves,
  is_incoming, counter_events, publish_events,
}

module _ (J : JsonLib) (soem : Soem) (s : PacketSniffer J) (now : ℕ) (p : Packet) where
  -- New values of the slaves, which are displayed and, if that is on, published.
  abbrev pub Processed : PacketSniffer J × List Event → Type 0
  Processed r =
      (slaves : List EthercatSlave) × (wkcnt : ℕ) × (copy_slaves (p.header_size + soem.ec_comt_size)
          p.buffer s.slaves
        ≡ some slaves)
      × (r ≡ (
        record s { slaves = slaves },
        counter_events (length s.slaves * 3) wkcnt
            ++ (display slaves ∷ publish_events J s now slaves),
      ))

  process_datagram_outcome :
      (size : ℕ) (r : PacketSniffer J × List Event)
      → process_datagram J soem s now p size ≡ some r
      → Processed r
  unfolding process_datagram
  process_datagram_outcome size r h =
      let start_offset : ℕ = p.header_size + soem.ec_comt_size in
      let (behind, _, h₁) = >>=-eq-some (pointer p.buffer (pos (start_offset + size))) _ h in
      let (counter, _, h₂) = >>=-eq-some (memcpy 2 behind) _ h₁ in
      let (slaves, copied, made) = >>=-eq-some (copy_slaves start_offset p.buffer s.slaves) _ h₂ in
      (slaves, u16_at counter 0, copied, sym (some-injective _ _ made))

  pub packet_callback_outcome :
      (r : PacketSniffer J × List Event)
      → packet_callback J soem s now p ≡ some r
      → (r ≡ (s, [])) ⊎ Processed r
  unfolding packet_callback
  packet_callback_outcome r h = elim (Bool-cases (is_incoming p)) [
    | inr foreign ↦ inl (sym (some-injective _ _ (rw foreign at h)))
    | inl ring ↦
        let (at, _, h₁) = >>=-eq-some (pointer p.buffer (pos p.header_size)) _ (rw ring at h) in
        let (header, _, h₂) = >>=-eq-some (memcpy soem.ec_comt_size at) _ h₁ in
        elim (Bool-cases (soem.command header == soem.ec_cmd_lrw)) [
          | inr other ↦ inl (sym (some-injective _ _ (rw other at h₂)))
          | inl lrw ↦
              inr (process_datagram_outcome (bit_and (soem.dlength header) 0x0fff) r (rw lrw at h₂))
        ]
  ]
