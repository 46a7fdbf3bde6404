-- ===== src/Sniffer/Delivery.antt =====
-- What the callback makes of a datagram that holds the process images of the slaves.
use kddv.Base.{
  ℕ, ◌+◌, ◌*◌, ◌≤◌, ◌≡◌, refl, ◌∙◌, true, ℤ, pos, ◌+ℤ◌, some, List, [], ◌∷◌, ◌++◌, length, drop,
  length-drop, ◌==◌, arith, take, ◌%◌,
}
use kddv.Memory.{pointer, pointer-eq_some, memcpy-eq_some, u16_at}
use kddv.Json.{JsonLib}
use kddv.Slave.{EthercatSlave, Device, copy_data}
use kddv.Slave.Image.{rx_image, tx_image, Fits, SameClass, copy_device-image}
use kddv.Sniffer.{
  Soem, Packet, display, PacketSniffer, packet_callback, process_datagram, copy_slaves,
  counter_events, publish_events, ring_address,
}
use kddv.Sniffer.Filter.{header_bytes, packet_callback_ring}

-- The buffer has `image` at `offset` behind the header.
abbrev HasImage : ℕ → List ℕ → ℤ → List ℕ → Type 0
HasImage start_offset buffer offset image =
    (rest : List ℕ) × (pointer buffer (pos start_offset +ℤ offset) ≡ some (image ++ rest))

-- At the slave's two offsets the buffer has the images of the device `d`.
pub record Carries (start_offset : ℕ) (buffer : List ℕ) (s : EthercatSlave) (d : Device)
    : Type 0 where
  pub same_class : SameClass s.device d
  pub fits : Fits d
  pub rx : HasImage start_offset buffer s.slave_info.rx_start_offset (rx_image d)
  pub tx : HasImage start_offset buffer s.slave_info.tx_start_offset (tx_image d)

-- One device for each slave, and the buffer carries them all.
abbrev pub CarriesAll : ℕ → List ℕ → List EthercatSlave → List Device → Type 0
CarriesAll start_offset buffer [] [] = Unit {0}
CarriesAll start_offset buffer [] (d ∷ ds) = ⊥
CarriesAll start_offset buffer (s ∷ rest) [] = ⊥
CarriesAll start_offset buffer (s ∷ rest) (d ∷ ds) =
    Carries start_offset buffer s d × CarriesAll start_offset buffer rest ds

-- The slaves with their data replaced, and all else kept.
abbrev pub with_devices : List EthercatSlave → List Device → List EthercatSlave
with_devices [] ds = []
with_devices (s ∷ rest) [] = s ∷ rest
with_devices (s ∷ rest) (d ∷ ds) = record s { device = d } ∷ with_devices rest ds

copy_data-image :
    (s : EthercatSlave) (d : Device) (rx_rest tx_rest : List ℕ)
    → SameClass s.device d
    → Fits d
    → copy_data s (rx_image d ++ rx_rest) (tx_image d ++ tx_rest) ≡ some (record s { device = d })
unfolding copy_data
copy_data-image s d a b c h = rw (copy_device-image s.device d a b c h)

copy_slaves_carried :
    (start_offset : ℕ) (buffer : List ℕ) (slaves : List EthercatSlave) (ds : List Device)
    → CarriesAll start_offset buffer slaves ds
    → copy_slaves start_offset buffer slaves ≡ some (with_devices slaves ds)
unfolding copy_slaves
copy_slaves_carried start_offset buffer [] [] h = refl
copy_slaves_carried start_offset buffer [] (d ∷ ds) h = absurd h
copy_slaves_carried start_offset buffer (s ∷ rest) [] h = absurd h
copy_slaves_carried start_offset buffer (s ∷ rest) (d ∷ ds) h = rw (
  h.0.rx.1,
  h.0.tx.1,
  copy_data-image s d h.0.rx.0 h.0.tx.0 h.0.same_class h.0.fits,
  copy_slaves_carried start_offset buffer rest ds h.1,
)

process_datagram_carried :
    (J : JsonLib) (soem : Soem) (s : PacketSniffer J) (now : ℕ) (p : Packet) (size : ℕ)
    (ds : List Device)
    → p.header_size + soem.ec_comt_size + size + 2 ≤ length p.buffer
    → CarriesAll (p.header_size + soem.ec_comt_size) p.buffer s.slaves ds
    → process_datagram J soem s now p size
      ≡ some (
        record s { slaves = with_devices s.slaves ds },
        counter_events
              (length s.slaves * 3)
              (u16_at (take 2 (drop (p.header_size + soem.ec_comt_size + size) p.buffer)) 0)
            ++ (display (with_devices s.slaves ds)
                ∷ publish_events J s now (with_devices s.slaves ds)),
      )
unfolding process_datagram
process_datagram_carried J soem s now p size ds fits h =
    let at : ℕ = p.header_size + soem.ec_comt_size + size in
    rw (
      pointer-eq_some at p.buffer (omega arith),
      memcpy-eq_some 2 (drop at p.buffer) (omega (arith, length-drop {0} at p.buffer)),
      copy_slaves_carried (p.header_size + soem.ec_comt_size) p.buffer s.slaves ds h,
    )

-- A complete logical read-write frame from the ring, which carries for each slave the process images
-- of a device of its class, with fields in range, at its two offsets: the callback succeeds, every
-- slave then holds exactly that device and keeps its slave information, the display is called with
-- these slaves, after a message if the working counter behind the datagram is not three times the
-- number of slaves, and they are published where publishing is on.
pub packet_callback_delivers :
    (J : JsonLib) (soem : Soem) (s : PacketSniffer J) (now : ℕ) (p : Packet) (ds : List Device)
    → p.src_addr ≡ ring_address
    → soem.command (header_bytes soem p) ≡ soem.ec_cmd_lrw
    → p.header_size + soem.ec_comt_size + soem.dlength (header_bytes soem p) % 4096 + 2
      ≤ length p.buffer
    → CarriesAll (p.header_size + soem.ec_comt_size) p.buffer s.slaves ds
    → packet_callback J soem s now p
      ≡ some (
        record s { slaves = with_devices s.slaves ds },
        counter_events (length s.slaves * 3) (
              u16_at
                (take 2 (
                  drop
                    (p.header_size + soem.ec_comt_size + soem.dlength (header_bytes soem p) % 4096)
                    p.buffer))
                0)
            ++ (display (with_devices s.slaves ds)
                ∷ publish_events J s now (with_devices s.slaves ds)),
      )
packet_callback_delivers J soem s now p ds from_ring lrw fits h =
    packet_callback_ring J soem s now p from_ring (omega arith)
    ∙ rw (test_lrw) (
        process_datagram_carried J soem s now p (soem.dlength (header_bytes soem p) % 4096) ds fits
          h)
  where
    test_lrw : (soem.command (header_bytes soem p) == soem.ec_cmd_lrw) ≡ true
    test_lrw = ground arith
