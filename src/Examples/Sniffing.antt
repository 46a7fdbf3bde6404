-- ===== src/Examples/Sniffing.antt =====
-- The packet callback on a frame of one battery, which carries its two process images.
use kddv.Base.{map, take, ◌≡◌, refl, pos, true, some, List, [], ◌∷◌, ◌++◌, arith, get_or, ◌+ℤ◌}
use kddv.Text.{text}
use kddv.Memory.{pointer, u16_at}
use kddv.Slave.{SlaveInfo, EthercatSlave, robile_battery}
use kddv.Slave.Image.{rx_image, tx_image}
use kddv.Source.{convert_to_json}
use kddv.Sniffer.{
  Soem, Packet, working_counter, display, publish, PacketSniffer, packet_callback, ring_address,
  counter_events, publish_events,
}
use kddv.Sniffer.Filter.{packet_callback_foreign}
use kddv.Sniffer.Delivery.{Carries, packet_callback_delivers}
use kddv.Sniffer.Loop.{Arrival, sniff_loop}
use kddv.Sniffer.Loop.Shapes.{is_some, all_of, shape}
use kddv.Sniffer.Loop.Bounds.{packet_in, sniff_loop_in_range}
use kddv.Sniffer.Loop.Reports.{Reported, sniff_loop-Reported}
use kddv.Examples.JsonModel.{json}
use kddv.Examples.Devices.{some_battery, battery_memory}

-- A header of three bytes: the command, and the length in two bytes.
abbrev pub soem : Soem
soem = record {
  ec_comt_size = 3;
  command = λ b. get_or b 0 0;
  dlength = λ b. u16_at b 1;
  ec_cmd_lrw = 12;
}

abbrev battery_info : SlaveInfo
battery_info = record {
  name = text "KELO_ROBILE";
  slave_type = 2;
  slave_number = pos 1;
  eep_man = pos 5001027;
  eep_rev = pos 1;
  eep_id = pos 34603265;
  address = pos 4097;
  rx_start_offset = pos 0;
  tx_start_offset = pos 12;
}

abbrev pub sniffer : PacketSniffer json
sniffer = record {
  slaves = record { slave_info = battery_info; device = robile_battery battery_memory } ∷ [];
  config = json.null;
  zmq_publish_enabled = true;
  sniffer_thread = true;
}

abbrev pub frame : Packet
frame = record {
  src_addr = ring_address;
  header_size = 2;
  buffer =
      (0 ∷ 0 ∷ 12 ∷ 80 ∷ 0 ∷ [])
      ++ (rx_image (robile_battery some_battery)
          ++ (tx_image (robile_battery some_battery) ++ (4 ∷ 0 ∷ [])));
}

abbrev pub read_slaves : List EthercatSlave
read_slaves = record { slave_info = battery_info; device = robile_battery some_battery } ∷ []

frame-Carries :
    Carries 5 frame.buffer
      (record { slave_info = battery_info; device = robile_battery battery_memory })
      (robile_battery some_battery)
unfolding pointer ◌+ℤ◌
frame-Carries = record {
  same_class = tt;
  fits = (omega arith, omega arith);
  rx = (tx_image (robile_battery some_battery) ++ (4 ∷ 0 ∷ []), refl);
  tx = (4 ∷ 0 ∷ [], refl);
}

packet_callback_delivers_example :
    packet_callback json soem sniffer 7 frame
    ≡ some (
      record sniffer { slaves = read_slaves },
      working_counter 4 3 ∷ display read_slaves ∷ publish (convert_to_json json 7 read_slaves) ∷ [],
    )
unfolding counter_events publish_events
packet_callback_delivers_example =
    packet_callback_delivers json soem sniffer 7 frame (robile_battery some_battery ∷ []) refl refl
      (omega arith) (frame-Carries, tt)

-- A frame of another master, one of the ring, and one that is cut off.
abbrev pub arrivals : List Arrival
arrivals =
    (5, record frame { src_addr = text "01:01:01:01:01:01" })
    ∷ (6, frame)
    ∷ (7, record frame { buffer = 0 ∷ 0 ∷ 12 ∷ [] })
    ∷ []

sniff_loop_in_range_example :
    is_some (sniff_loop json soem sniffer arrivals)
    ≡ all_of (λ a. packet_in soem (map shape sniffer.slaves) a.1) arrivals
sniff_loop_in_range_example = sniff_loop_in_range json soem sniffer arrivals

pub seen :
    sniff_loop json soem sniffer (take 2 arrivals)
    ≡ some (
      record sniffer { slaves = read_slaves },
      working_counter 4 3 ∷ display read_slaves ∷ publish (convert_to_json json 6 read_slaves) ∷ [],
    )
unfolding sniff_loop counter_events publish_events
seen =
    rw
      (
        packet_callback_foreign json soem sniffer 5
            (record frame { src_addr = text "01:01:01:01:01:01" }) (λ e. ground arith),
        packet_callback_delivers json soem sniffer 6 frame (robile_battery some_battery ∷ []) refl
            refl (omega arith) (frame-Carries, tt),
      )
      refl

sniff_loop-Reported_example :
    Reported json true (
      working_counter 4 3 ∷ display read_slaves ∷ publish (convert_to_json json 6 read_slaves) ∷ [])
sniff_loop-Reported_example =
    sniff_loop-Reported json soem sniffer (record sniffer { slaves = read_slaves })
      (take 2 arrivals)
      (working_counter 4 3
        ∷ display read_slaves
        ∷ publish (convert_to_json json 6 read_slaves)
        ∷ [])
      seen
