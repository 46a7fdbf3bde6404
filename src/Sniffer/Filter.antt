-- ===== src/Sniffer/Filter.antt =====
-- Which frames the callback passes over.
use kddv.Base.{
  ℕ, ◌+◌, ◌≤◌, ◌≡◌, ◌≢◌, true, false, some, List, [], ◌==◌, if◌then◌else◌, length, take, drop,
  length-drop, bit_and_0fff, ◌%◌, arith,
}
use kddv.Text.Keys.{str_eq_iff}
use kddv.Memory.{pointer-eq_some, memcpy-eq_some}
use kddv.Json.{JsonLib}
use kddv.Sniffer.{
  Soem, Packet, PacketSniffer, packet_callback, process_datagram, is_incoming, ring_address,
}

-- The bytes where the EtherCAT header is expected.
abbrev pub header_bytes : Soem → Packet → List ℕ
header_bytes soem p = take soem.ec_comt_size (drop p.header_size p.buffer)

is_incoming-false : (p : Packet) → p.src_addr ≢ ring_address → is_incoming p ≡ false
unfolding is_incoming
is_incoming-false p h = ground (arith, str_eq_iff p.src_addr ring_address)

pub is_incoming-true : (p : Packet) → p.src_addr ≡ ring_address → is_incoming p ≡ true
unfolding is_incoming
is_incoming-true p h = ground (arith, str_eq_iff p.src_addr ring_address)

-- A frame from any other address changes nothing and is reported to no one, whatever it holds.
pub packet_callback_foreign :
    (J : JsonLib) (soem : Soem) (s : PacketSniffer J) (now : ℕ) (p : Packet)
    → p.src_addr ≢ ring_address
    → packet_callback J soem s now p ≡ some (s, [])
unfolding packet_callback
packet_callback_foreign J soem s now p h = rw (is_incoming-false p h)

-- On a frame from the ring whose header lies in the buffer, the callback does nothing if the command
-- is not a logical read-write, and processes the datagram, at the length in the low twelve bits, if
-- it is.
pub packet_callback_ring :
    (J : JsonLib) (soem : Soem) (s : PacketSniffer J) (now : ℕ) (p : Packet)
    → p.src_addr ≡ ring_address
    → p.header_size + soem.ec_comt_size ≤ length p.buffer
    → packet_callback J soem s now p ≡ (
        if soem.command (header_bytes soem p) == soem.ec_cmd_lrw
        then process_datagram J soem s now p (soem.dlength (header_bytes soem p) % 4096)
        else some (s, []))
unfolding packet_callback
packet_callback_ring J soem s now p h fits =
    rw
      (
        is_incoming-true p h,
        pointer-eq_some p.header_size p.buffer (omega arith),
        memcpy-eq_some soem.ec_comt_size (drop p.header_size p.buffer)
            (omega (arith, length-drop {0} p.header_size p.buffer)),
        bit_and_0fff,
      )
      (ground arith)
