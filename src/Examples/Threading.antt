-- ===== src/Examples/Threading.antt =====
-- The sniffer's thread on an interface and on a file of two packets.
use kddv.Base.{map, ◌≡◌, refl, true, false, [], ◌∷◌, take, arith}
use kddv.Text.{text}
use kddv.Sniffer.Filter.{packet_callback_foreign}
use kddv.Sniffer.Thread.{
  file, interface, outside, in_stop, in_destructor, Capturing, idle, start, stop_sniff, arrive,
  read_packet, broken_file, join, Run, here, then_step,
}
use kddv.Sniffer.Thread.Quiet.{at_once, one_more, Quiet, stop-Quiet}
use kddv.Sniffer.Thread.Resuming.{Consumed, handed, resumed}
use kddv.Sniffer.Thread.Stopped.{stopped_latest}
use kddv.Sniffer.Loop.Shapes.{shape}
use kddv.Sniffer.Loop.Latest.{last_displayed}
use kddv.Sniffer.Thread.Destroying.{reached, go_on, destructor_waits}
use kddv.Examples.JsonModel.{json}
use kddv.Examples.Sniffing.{soem, sniffer, frame, arrivals}

-- In the loop over the interface, with no packet yet.
abbrev looping : Capturing json
looping = record (idle json sniffer interface) {
  sniffer = record sniffer { sniffer_thread = true };
  in_loop = true;
}

abbrev stopping : Capturing json
stopping = record looping { break_loop = true; caller = in_stop }

abbrev unlooped : Capturing json
unlooped = record stopping { in_loop = false; break_loop = false }

abbrev joined : Capturing json
joined = record unlooped { sniffer = record sniffer { sniffer_thread = false }; caller = outside }

stop-Quiet_example : Quiet json soem joined (record joined { break_loop = true; caller = in_stop })
stop-Quiet_example =
    stop-Quiet json soem unlooped joined (record joined { break_loop = true; caller = in_stop })
      refl (join refl refl) refl (one_more at_once (stop_sniff refl) refl)

abbrev reading_file : Capturing json
reading_file = record (idle json sniffer (file (take 2 arrivals))) {
  sniffer = record sniffer { sniffer_thread = true };
  in_loop = true;
}

-- The first packet, of another master, is handled, and the second one is left.
abbrev first_read : Capturing json
first_read = record reading_file { capture = file ((6, frame) ∷ []) }

abbrev first-Run : Run json soem (idle json sniffer (file (take 2 arrivals))) first_read
first-Run = then_step (then_step here (start refl refl)) (
    read_packet (5, record frame { src_addr = text "01:01:01:01:01:01" }) ((6, frame) ∷ [])
      (record sniffer { sniffer_thread = true }) [] refl refl
      (packet_callback_foreign json soem (record sniffer { sniffer_thread = true }) 5
        (record frame { src_addr = text "01:01:01:01:01:01" }) (λ e. ground arith)))

resumed_example : Consumed json soem sniffer (file (take 2 arrivals)) (take 1 arrivals) first_read
unfolding handed
resumed_example = resumed json soem sniffer (file (take 2 arrivals)) first_read first-Run

-- A packet arrives while the destructor waits.
destructor_waits_example : (in_destructor ≡ in_destructor) × (looping.in_loop ≡ true)
destructor_waits_example =
    destructor_waits json soem sniffer looping (record looping { caller = in_destructor })
      (then_step here (start refl refl)) refl refl refl
      (go_on reached
        (arrive (5, record frame { src_addr = text "01:01:01:01:01:01" })
          (record sniffer { sniffer_thread = true }) [] refl refl
          (packet_callback_foreign json soem (record sniffer { sniffer_thread = true }) 5
            (record frame { src_addr = text "01:01:01:01:01:01" }) (λ e. ground arith)))
        refl)

-- Stopped behind the first packet.
abbrev stopped : Capturing json
stopped = record first_read { sniffer = record sniffer { sniffer_thread = false }; in_loop = false }

stopped_latest_example :
    (stopped.sniffer
      ≡ record sniffer { slaves = last_displayed sniffer.slaves []; sniffer_thread = false })
    × (map shape stopped.sniffer.slaves ≡ map shape sniffer.slaves)
stopped_latest_example =
    stopped_latest json soem sniffer (file (take 2 arrivals)) stopped
      (then_step
        (then_step (then_step first-Run (stop_sniff refl))
          (broken_file ((6, frame) ∷ []) refl refl refl))
        (join refl refl))
      refl
