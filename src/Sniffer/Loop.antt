-- ===== src/Sniffer/Loop.antt =====
-- `startSnifferLoop` of src/packet_sniffer.cpp: the callback on each packet that libtins hands on.
-- The callback always returns `true`, so that only `stop` or the end of the packets ends the loop.
pub mod Outcome
pub mod Shapes
pub mod Bounds
pub mod Latest
pub mod Reports
use kddv.Base.{ℕ, Option, some, ◌>>=◌, List, [], ◌∷◌, ◌++◌}
use kddv.Json.{JsonLib}
use kddv.Sniffer.{Soem, Packet, Event, PacketSniffer, packet_callback}

-- A packet, and the milliseconds at which it is handled.
abbrev pub Arrival : Type 0
Arrival = ℕ × Packet

unfoldable pub sniff_loop :
    (J : JsonLib) → Soem → PacketSniffer J → List Arrival → Option (PacketSniffer J × List Event)
sniff_loop J soem s [] = some (s, [])
sniff_loop J soem s ((now, p) ∷ arrivals) = do
  (s', events) ← packet_callback J soem s now p
  (s'', more) ← sniff_loop J soem s' arrivals
  some (s'', events ++ more)
