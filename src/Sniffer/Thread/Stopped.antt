-- ===== src/Sniffer/Thread/Stopped.antt =====
-- The sniffer of src/packet_sniffer.cpp as the UIs have it back once it is stopped.
use kddv.Base.{◌≡◌, ap, ◌∙◌, false, map}
use kddv.Json.{JsonLib}
use kddv.Sniffer.{Soem, PacketSniffer}
use kddv.Sniffer.Loop.Shapes.{shape}
use kddv.Sniffer.Loop.Latest.{last_displayed, sniff_loop_latest}
use kddv.Sniffer.Thread.{Capture, Capturing, idle, Run}
use kddv.Sniffer.Thread.Resuming.{with_thread, handed, resumed}

module _ (J : JsonLib) (soem : Soem) where
  -- However often the sniffer has been started and stopped, whenever its thread is not joinable it is
  -- the sniffer from before the first start but for the data of the slaves: they are those of the
  -- last call of the UI, or those from the start if there was none, with the slave information and
  -- the classes as they were; the config and the publishing are unchanged.
  pub stopped_latest :
      (s : PacketSniffer J) (capture : Capture) (q : Capturing J)
      → Run J soem (idle J s capture) q
      → q.sniffer.sniffer_thread ≡ false
      → (q.sniffer ≡ record s { slaves = last_displayed s.slaves q.events; sniffer_thread = false })
        × (map shape q.sniffer.slaves ≡ map shape s.slaves)
  stopped_latest s capture q run off =
      let (handled, _) = resumed J soem s capture q run in
      let (latest, kept) =
        sniff_loop_latest J soem (with_thread J soem false s) (with_thread J soem false q.sniffer)
          (handed J soem run) q.events handled in
      (ap (λ b. with_thread J soem b q.sniffer) off ∙ latest, kept)
