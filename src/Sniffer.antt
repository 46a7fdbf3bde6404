-- ===== src/Sniffer.antt =====
-- src/packet_sniffer.cpp. libtins, SOEM's datagram header and jsoncpp are parameters. `none` stands
-- for a program that does not go on: a read outside a buffer, a null pointer, or an exception that
-- nothing catches.
pub mod Delivery
pub mod Filter
pub mod Loop
pub mod Setup
pub mod Thread
use kddv.Base.{
  ℕ, zero, suc, ◌+◌, ◌*◌, ℤ, pos, ◌+ℤ◌, Bool, true, false, not, Option, none, some, ◌>>=◌, List, [],
  ◌∷◌, ◌++◌, ◌==◌, if◌then◌else◌, bit_and, length,
}
use kddv.Text.{Text, text, str_eq}
use kddv.Memory.{memcpy, pointer, u16_at}
use kddv.Json.{JsonLib}
use kddv.Slave.{EthercatSlave, copy_data}
use kddv.Source.{convert_to_json}

-- SOEM's `ec_comt`: its size, the two fields that are read from its bytes, and the command number.
pub record Soem : Type 0 where
  pub ec_comt_size : ℕ
  pub command : List ℕ → ℕ
  pub dlength : List ℕ → ℕ
  pub ec_cmd_lrw : ℕ

-- What libtins says of a captured frame.
pub record Packet : Type 0 where
  pub src_addr : Text
  pub header_size : ℕ
  pub buffer : List ℕ

pub data Event : Type 0 where
  -- The message on standard output: the counter, and what was expected.
  working_counter : ℕ → ℕ → Event
  -- The call of the UI's callback.
  display : List EthercatSlave → Event
  publish : Text → Event

pub record PacketSniffer (J : JsonLib) : Type 0 where
  pub slaves : List EthercatSlave
  pub config : J.Value
  pub zmq_publish_enabled : Bool
  -- Whether `sniffer_thread` is joinable: it has been started, and not been joined since.
  pub sniffer_thread : Bool

-- The loop over the slaves; both offsets count from the end of the datagram's header.
unfoldable pub copy_slaves : ℕ → List ℕ → List EthercatSlave → Option (List EthercatSlave)
copy_slaves start_offset buffer [] = some []
copy_slaves start_offset buffer (s ∷ rest) = do
  rx_data ← pointer buffer (pos start_offset +ℤ s.slave_info.rx_start_offset)
  tx_data ← pointer buffer (pos start_offset +ℤ s.slave_info.tx_start_offset)
  s' ← copy_data s rx_data tx_data
  rest' ← copy_slaves start_offset buffer rest
  some (s' ∷ rest')

abbrev pub ring_address : Text
ring_address = text "03:01:01:01:01:01"

-- Only frames that have been through the ring of slaves have this source.
unfoldable pub is_incoming : Packet → Bool
is_incoming p = str_eq p.src_addr ring_address

unfoldable pub counter_events : ℕ → ℕ → List Event
counter_events expected_wkcnt wkcnt =
    if expected_wkcnt == wkcnt then [] else working_counter wkcnt expected_wkcnt ∷ []

unfoldable pub publish_events :
    (J : JsonLib) → PacketSniffer J → ℕ → List EthercatSlave → List Event
publish_events J s now slaves =
    if s.zmq_publish_enabled then publish (convert_to_json J now slaves) ∷ [] else []

-- From the check of the working counter to the end of the callback.
unfoldable pub process_datagram :
    (J : JsonLib) → Soem → PacketSniffer J → ℕ → Packet → ℕ → Option (PacketSniffer J × List Event)
process_datagram J soem s now p datagram_size = do
  let start_offset = p.header_size + soem.ec_comt_size
  counter_data ← pointer p.buffer (pos (start_offset + datagram_size))
  counter ← memcpy 2 counter_data
  slaves ← copy_slaves start_offset p.buffer s.slaves
  some (
    record s { slaves = slaves },
    counter_events (length s.slaves * 3) (u16_at counter 0)
        ++ (display slaves ∷ publish_events J s now slaves),
  )

-- `packetCallback` at `now` milliseconds. It always returns `true`, to go on sniffing.
unfoldable pub packet_callback :
    (J : JsonLib) → Soem → PacketSniffer J → ℕ → Packet → Option (PacketSniffer J × List Event)
packet_callback J soem s now p =
    let process : Option (PacketSniffer J × List Event) = do
      header_data ← pointer p.buffer (pos p.header_size)
      header ← memcpy soem.ec_comt_size header_data
      let datagram_size = bit_and (soem.dlength header) 0x0fff
      if not (soem.command header == soem.ec_cmd_lrw)
          then some (s, [])
          else process_datagram J soem s now p datagram_size
    in if not (is_incoming p) then some (s, []) else process
