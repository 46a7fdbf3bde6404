-- ===== src/Sniffer/Thread/Quiet.antt =====
-- What `stop` of src/packet_sniffer.cpp leaves.
use kddv.Base.{◌≡◌, refl, sym, ap, ◌∙◌, Bool, true, false, arith}
use kddv.Json.{JsonLib}
use kddv.Sniffer.{Soem, PacketSniffer}
use kddv.Sniffer.Thread.{
  outside, in_stop, Capturing, Step, start, stop_sniff, destroy, join, join_last, arrive,
  read_packet, end_of_file, capture_failed, broken_file, broken_interface,
}

module _ (J : JsonLib) (soem : Soem) where
  abbrev pub is_start : {p q : Capturing J} → Step J soem p q → Bool
  is_start (start _ _) = true
  is_start _ = false

  -- Steps of either thread, without a call of `start`.
  pub data UntilStart (p : Capturing J) : Capturing J → Type 0 where
    at_once : UntilStart p p
    one_more :
        {q r : Capturing J}
        → UntilStart p q
        → (move : Step J soem q r) → is_start move ≡ false
        → UntilStart p r

  -- No thread runs, and the sniffer is as it was at `q`.
  pub record Quiet (q r : Capturing J) : Type 0 where
    pub loop_ended : r.in_loop ≡ false
    pub not_joinable : r.sniffer.sniffer_thread ≡ false
    pub same_sniffer : r.sniffer ≡ q.sniffer
    pub same_events : r.events ≡ q.events

  joined_again :
      (s : PacketSniffer J) → s.sniffer_thread ≡ false → record s { sniffer_thread = false } ≡ s
  joined_again s e =
      ap {A = Bool} {B = PacketSniffer J} (λ b. record s { sniffer_thread = b }) (sym e)

  Step-Quiet :
      (q r t : Capturing J)
      → Quiet q r
      → (move : Step J soem r t) → is_start move ≡ false
      → Quiet q t
  Step-Quiet q r t h (start _ _) is = absurd (ground (arith, is))
  Step-Quiet q r t h (stop_sniff _) is = record {
    loop_ended = h.loop_ended;
    not_joinable = h.not_joinable;
    same_sniffer = h.same_sniffer;
    same_events = h.same_events;
  }
  Step-Quiet q r t h (destroy _) is = record {
    loop_ended = h.loop_ended;
    not_joinable = h.not_joinable;
    same_sniffer = h.same_sniffer;
    same_events = h.same_events;
  }
  Step-Quiet q r t h (join _ _) is = record {
    loop_ended = h.loop_ended;
    not_joinable = refl;
    same_sniffer = joined_again r.sniffer h.not_joinable ∙ h.same_sniffer;
    same_events = h.same_events;
  }
  Step-Quiet q r t h (join_last _ _) is = record {
    loop_ended = h.loop_ended;
    not_joinable = refl;
    same_sniffer = joined_again r.sniffer h.not_joinable ∙ h.same_sniffer;
    same_events = h.same_events;
  }
  Step-Quiet q r t h (arrive _ _ _ on _ _) is = absurd (ground (arith, on, h.loop_ended))
  Step-Quiet q r t h (read_packet _ _ _ _ on _ _) is = absurd (ground (arith, on, h.loop_ended))
  Step-Quiet q r t h (end_of_file on _) is = absurd (ground (arith, on, h.loop_ended))
  Step-Quiet q r t h (capture_failed on) is = absurd (ground (arith, on, h.loop_ended))
  Step-Quiet q r t h (broken_file _ on _ _) is = absurd (ground (arith, on, h.loop_ended))
  Step-Quiet q r t h (broken_interface _ on _ _) is = absurd (ground (arith, on, h.loop_ended))

  UntilStart-Quiet : (q r : Capturing J) → Quiet q q → UntilStart q r → Quiet q r
  UntilStart-Quiet q r h at_once = h
  UntilStart-Quiet q r h (one_more {q = mid} moves move is) =
      Step-Quiet q mid r (UntilStart-Quiet q mid h moves) move is

  returned-Quiet :
      (p q : Capturing J) → p.caller ≡ in_stop → Step J soem p q → q.caller ≡ outside → Quiet q q
  returned-Quiet p q at (start out _) back = absurd (ground (arith, at, out))
  returned-Quiet p q at (stop_sniff out) back = absurd (ground (arith, at, out))
  returned-Quiet p q at (destroy out) back = absurd (ground (arith, at, out))
  returned-Quiet p q at (join _ ended) back = record {
    loop_ended = ended;
    not_joinable = refl;
    same_sniffer = refl;
    same_events = refl;
  }
  returned-Quiet p q at (join_last out _) back = absurd (ground (arith, at, out))
  returned-Quiet p q at (arrive _ _ _ _ _ _) back = absurd (ground (arith, at, back))
  returned-Quiet p q at (read_packet _ _ _ _ _ _ _) back = absurd (ground (arith, at, back))
  returned-Quiet p q at (end_of_file _ _) back = absurd (ground (arith, at, back))
  returned-Quiet p q at (capture_failed _) back = absurd (ground (arith, at, back))
  returned-Quiet p q at (broken_file _ _ _ _) back = absurd (ground (arith, at, back))
  returned-Quiet p q at (broken_interface _ _ _ _) back = absurd (ground (arith, at, back))

  -- From the step with which `stop` returns until `start` is called again, whatever either thread
  -- does: the loop has ended, the thread is not joinable, and no packet is handled, so that the
  -- sniffer and what the UI and the subscribers have been given stay as they are.
  pub stop-Quiet :
      (p q r : Capturing J)
      → p.caller ≡ in_stop
      → Step J soem p q
      → q.caller ≡ outside
      → UntilStart q r
      → Quiet q r
  stop-Quiet p q r at returns back moves =
      UntilStart-Quiet q r (returned-Quiet p q at returns back) moves
