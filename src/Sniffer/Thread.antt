-- ===== src/Sniffer/Thread.antt =====
-- The thread of src/packet_sniffer.cpp, `start`, `stop` and the destructor, as steps of the thread
-- that captures and of the one that calls. libtins hands on a packet, and ends its loop at the end of
-- a file or where the capture fails. It wants `stop_sniff` called from within the loop, not from
-- another thread as `stop` does; here the flag that it leaves does not wake a loop that waits on an
-- interface, which may look at it when the next packet comes, or handle that packet all the same.
pub mod Quiet
pub mod Destroying
pub mod Resuming
pub mod Stopped
use kddv.Base.{◌≡◌, ℕ, zero, suc, Bool, true, false, some, List, [], ◌∷◌, ◌++◌}
use kddv.Json.{JsonLib}
use kddv.Sniffer.{Soem, Event, PacketSniffer, packet_callback}
use kddv.Sniffer.Loop.{Arrival}

-- What is captured: the packets that are left of a file, or an interface, where more may arrive.
pub data Capture : Type 0 where
  file : List Arrival → Capture
  interface : Capture

-- Where the thread stands that calls the methods.
pub data Caller : Type 0 where
  outside : Caller
  in_stop : Caller
  in_destructor : Caller
  destroyed : Caller

module _ (J : JsonLib) where
  pub record Capturing : Type 0 where
    pub sniffer : PacketSniffer J
    pub capture : Capture
    -- Whether the thread is inside `sniff_loop`.
    pub in_loop : Bool
    pub break_loop : Bool
    pub caller : Caller
    pub events : List Event

  -- As the constructor and `getSlaves` leave it.
  abbrev pub idle : PacketSniffer J → Capture → Capturing
  idle s capture = record {
    sniffer = record s { sniffer_thread = false };
    capture = capture;
    in_loop = false;
    break_loop = false;
    caller = outside;
    events = [];
  }

  module _ (soem : Soem) where
    pub data Step (p : Capturing) : Capturing → Type 0 where
      -- Without a joinable thread; with one, `std::thread` ends the program.
      start :
          p.caller ≡ outside
          → p.sniffer.sniffer_thread ≡ false
          → Step p
              (record p { sniffer = record p.sniffer { sniffer_thread = true }; in_loop = true })
      stop_sniff : p.caller ≡ outside → Step p (record p { break_loop = true; caller = in_stop })
      destroy : p.caller ≡ outside → Step p (record p { caller = in_destructor })
      -- `join`, which waits for the thread where there is one.
      join :
          p.caller ≡ in_stop
          → p.in_loop ≡ false
          → Step p
              (record p { sniffer = record p.sniffer { sniffer_thread = false }; caller = outside })
      join_last :
          p.caller ≡ in_destructor
          → p.in_loop ≡ false
          → Step p (record p {
            sniffer = record p.sniffer { sniffer_thread = false };
            caller = destroyed;
          })
      arrive :
          (a : Arrival) (s : PacketSniffer J) (events : List Event)
          → p.in_loop ≡ true
          → p.capture ≡ interface
          → packet_callback J soem p.sniffer a.0 a.1 ≡ some (s, events)
          → Step p (record p { sniffer = s; events = p.events ++ events })
      read_packet :
          (a : Arrival) (rest : List Arrival) (s : PacketSniffer J) (events : List Event)
          → p.in_loop ≡ true
          → p.capture ≡ file (a ∷ rest)
          → packet_callback J soem p.sniffer a.0 a.1 ≡ some (s, events)
          → Step p (record p { sniffer = s; capture = file rest; events = p.events ++ events })
      end_of_file : p.in_loop ≡ true → p.capture ≡ file [] → Step p (record p { in_loop = false })
      -- An error of the capture, also in the middle of a file.
      capture_failed : p.in_loop ≡ true → Step p (record p { in_loop = false })
      -- Before the next packet of a file.
      broken_file :
          (rest : List Arrival)
          → p.in_loop ≡ true
          → p.break_loop ≡ true
          → p.capture ≡ file rest
          → Step p (record p { in_loop = false; break_loop = false })
      -- With a packet on the interface, which stays unread.
      broken_interface :
          (a : Arrival)
          → p.in_loop ≡ true
          → p.break_loop ≡ true
          → p.capture ≡ interface
          → Step p (record p { in_loop = false; break_loop = false })

    pub data Run (p : Capturing) : Capturing → Type 0 where
      here : Run p p
      then_step : {q r : Capturing} → Run p q → Step q r → Run p r
