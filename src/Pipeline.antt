-- ===== src/Pipeline.antt =====
-- The way of the data through the program: src/generate_config_file.cpp writes the config file,
-- src/packet_sniffer.cpp reads it and then a frame, and the UI and the message of
-- src/ethercat_data_source.cpp have what the slaves had.
pub mod Numbers
pub mod Masters
use kddv.Base.{
  ℕ, ◌+◌, ◌*◌, ◌≤◌, ◌≡◌, refl, sym, ap, true, List, [], ◌∷◌, ◌++◌, All, length, some, ◌%◌, take,
  drop,
}
use kddv.Text.{Text, text}
use kddv.Memory.{u16_at}
use kddv.Json.{JsonLib, JsonLaws, ArrayLaws}
use kddv.Slave
use kddv.Slave.{EthercatSlave, Device, slave_id}
use kddv.Source.{Uninitialised, message_root}
use kddv.Source.Message.{DistinctNumbers, message_holds}
use kddv.Pipeline.Numbers.{Listed-DistinctNumbers, with_devices-DistinctNumbers}
use kddv.Sniffer.{
  Soem, Packet, Event, display, PacketSniffer, packet_callback, counter_events, publish_events,
  ring_address,
}
use kddv.Sniffer.Filter.{header_bytes}
use kddv.Sniffer.Delivery.{CarriesAll, with_devices, packet_callback_delivers}
use kddv.Sniffer.Loop.Latest.{last_displayed, packet_callback_latest}
use kddv.Sniffer.Setup.{set_config_file, get_slaves}
use kddv.Generator.{SdoRead, Mapped, is_positive}
use kddv.Generator.Info.{Bus, get_info}
use kddv.Generator.Listed.{Listed}
use kddv.Generator.Main.{Styled, Disk, config_of, main}
use kddv.Generator.Main.ReadBack.{Agreement, ReadsBack, generated_config}

-- A complete logical read-write frame from the ring, which carries the images of the devices at the
-- offsets of the slaves.
pub record FrameOf (soem : Soem) (p : Packet) (ss : List EthercatSlave) (ds : List Device)
    : Type 0 where
  pub from_ring : p.src_addr ≡ ring_address
  pub read_write : soem.command (header_bytes soem p) ≡ soem.ec_cmd_lrw
  pub complete :
      p.header_size + soem.ec_comt_size + soem.dlength (header_bytes soem p) % 4096 + 2
      ≤ length p.buffer
  pub carries : CarriesAll (p.header_size + soem.ec_comt_size) p.buffer ss ds

module _ (J : JsonLib) (soem : Soem) where
  -- The UI is called with the devices, and the message has what each of them converts to.
  pub record Arrived (s : PacketSniffer J) (now : ℕ) (p : Packet) (ds : List Device) : Type 0 where
    pub after : PacketSniffer J
    pub events : List Event
    pub handled : packet_callback J soem s now p ≡ some (after, events)
    -- Behind a word on the working counter, if any, the display and, if that is on, the message.
    pub told :
        (counted : List Event) × (events
          ≡ counted
            ++ (display (with_devices s.slaves ds)
                ∷ publish_events J s now (with_devices s.slaves ds)))
    pub shown : last_displayed s.slaves events ≡ with_devices s.slaves ds
    pub sent :
        All
          (λ t.
            J.get (message_root J now (with_devices s.slaves ds)) (slave_id t.slave_info)
            ≡ Slave.convert_to_json J t.device J.null)
          (with_devices s.slaves ds)

  frame-Arrived :
      (L : JsonLaws J) (s : PacketSniffer J) (now : ℕ) (p : Packet) (ds : List Device)
      → FrameOf soem p s.slaves ds
      → DistinctNumbers s.slaves
      → Arrived s now p ds
  frame-Arrived L s now p ds f apart =
      let handled =
        packet_callback_delivers J soem s now p ds f.from_ring f.read_write f.complete f.carries in
      record {
        after = _;
        events = _;
        handled = handled;
        told = (_, refl);
        shown = sym (ap (λ m. m.slaves) (packet_callback_latest J soem s (now, p) _ handled));
        sent =
            (message_holds J L now (with_devices s.slaves ds)
              (with_devices-DistinctNumbers s.slaves ds apart)).1;
      }

module _ (J : JsonLib) (L : JsonLaws J) (A : ArrayLaws J) (S : Styled J) (G : Agreement J)
    (u : Uninitialised) (soem : Soem) where
  -- From the bus to the UI, for an interface that opens, a bus of which each supported slave has
  -- offsets that `si_map_sdo` finds and numbers that fit an `int`, a file that can be written, and a
  -- tree that jsoncpp reads back as it wrote it: a sniffer takes the file that the generator writes and
  -- makes the supported slaves. A complete frame from the ring, which carries the process images of
  -- devices, one for each slave, at the offsets of these slaves, then brings exactly these devices to
  -- the UI and, where publishing is on, to the subscribers; and the message made of them holds under
  -- the name and number of each slave what its device converts to.
  pub bus_shown :
      (fuel : ℕ) (read : SdoRead) (m : Mapped) (bus : Text → Bus) (ss : List EthercatSlave)
      (disk : Disk) (ifname filename : Text) (s : PacketSniffer J) (error : Text) (now : ℕ)
      (p : Packet) (ds : List Device)
      → (bus ifname).init ≡ true
      → is_positive (bus ifname).config ≡ true
      → Listed u fuel read m (bus ifname).slaves 1 ss
      → disk.writable filename ≡ true
      → ((root : J.Value) (messages : List Text)
          → get_info J fuel read m (bus ifname) ≡ some (root, messages)
          → ReadsBack J S G root)
      → FrameOf soem p ss ds
      → (disk' : Disk) × (lines : List Text) × (config : J.Value) × (main J S fuel read m bus disk
            (ifname ∷ filename ∷ [])
          ≡ some (disk', lines))
        × (set_config_file J (config_of J S disk') s filename error
            ≡ some (record s { config = config }, error))
        × (get_slaves J u (record s { config = config }) error
            ≡ some (record s { config = config; slaves = ss }, error))
        × Arrived J soem (record s { config = config; slaves = ss }) now p ds
  bus_shown fuel read m bus ss disk ifname filename s error now p ds opens configured l can reads
        f =
      let (disk', lines, config, wrote, taken, made) =
        generated_config J L A S G u fuel read m bus ss disk ifname filename [] s error opens
          configured l can reads in
      (
        disk',
        lines,
        config,
        wrote,
        taken,
        made,
        frame-Arrived J soem L (record s { config = config; slaves = ss }) now p ds f
            (Listed-DistinctNumbers u fuel read m (bus ifname).slaves 1 ss l),
      )
