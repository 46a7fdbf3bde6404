-- ===== src/Examples/Piping.antt =====
-- A bus with one drive, from the generator to the UI.
use kddv.Base.{
  ℕ, zero, suc, ◌≡◌, refl, some, List, [], ◌∷◌, ◌++◌, arith, length, ◌+◌, ◌-◌, ◌/◌, ◌%◌, ◌+ℤ◌,
}
use kddv.Text.{Text, text}
use kddv.Memory.{pointer}
use kddv.Slave.{kelo_drive}
use kddv.Slave.Image.{rx_image, tx_image}
use kddv.Sniffer.{Packet, ring_address}
use kddv.Sniffer.Delivery.{Carries}
use kddv.Sniffer.Setup.{set_config_file, get_slaves}
use kddv.Generator.Main.{Disk, config_of, main}
use kddv.Pipeline.{FrameOf, Arrived, bus_shown}
use kddv.Examples.JsonModel.{Json, json, json_laws, array_laws}
use kddv.Examples.Devices.{memory, some_drive}
use kddv.Examples.Sniffing.{soem}
use kddv.Examples.Generating.{
  dictionary, mapped, bus, found, bus_Listed, sniffer, styled, agreement, disk, reads_tree,
}

abbrev zeros : ℕ → List ℕ
zeros zero = []
zeros (suc n) = 0 ∷ zeros n

abbrev rx : List ℕ
rx = rx_image (kelo_drive some_drive)

abbrev tx : List ℕ
tx = tx_image (kelo_drive some_drive)

abbrev behind_rx : List ℕ
behind_rx = zeros (140 - length rx) ++ (tx ++ (3 ∷ 0 ∷ []))

-- The data of 152 bytes and the image of the sensors, behind headers of two and three bytes.
abbrev size : ℕ
size = 152 + length tx

abbrev frame : Packet
frame = record {
  src_addr = ring_address;
  header_size = 2;
  buffer = (0 ∷ 0 ∷ 12 ∷ size % 256 ∷ size / 256 ∷ []) ++ (zeros 12 ++ (rx ++ behind_rx));
}

frame-Carries : Carries 5 frame.buffer found (kelo_drive some_drive)
unfolding pointer ◌+ℤ◌
frame-Carries = record {
  same_class = tt;
  fits = (omega arith, omega arith);
  rx = (behind_rx, refl);
  tx = (3 ∷ 0 ∷ [], refl);
}

drive-FrameOf : FrameOf soem frame (found ∷ []) (kelo_drive some_drive ∷ [])
drive-FrameOf = record {
  from_ring = refl;
  read_write = refl;
  complete = omega arith;
  carries = (frame-Carries, tt);
}

bus_shown_example :
    (disk' : Disk) × (lines : List Text) × (config : Json) × (main json styled 3 dictionary mapped
        (λ i. bus)
        disk
        (text "eth0" ∷ text "cfg" ∷ [])
      ≡ some (disk', lines))
    × (set_config_file json (config_of json styled disk') sniffer (text "cfg") []
        ≡ some (record sniffer { config = config }, []))
    × (get_slaves json memory (record sniffer { config = config }) []
        ≡ some (record sniffer { config = config; slaves = found ∷ [] }, []))
    × Arrived json soem
        (record sniffer { config = config; slaves = found ∷ [] })
        7
        frame
        (kelo_drive some_drive ∷ [])
bus_shown_example =
    bus_shown json json_laws array_laws styled agreement memory soem 3 dictionary mapped (λ i. bus)
      (found ∷ []) disk (text "eth0") (text "cfg") sniffer [] 7 frame (kelo_drive some_drive ∷ [])
      refl refl bus_Listed refl reads_tree drive-FrameOf
