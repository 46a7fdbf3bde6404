-- ===== src/Sniffer/Thread/Destroying.antt =====
-- The destructor of src/packet_sniffer.cpp, which joins the thread without `stop_sniff`.
use kddv.Base.{◌≡◌, refl, Bool, true, false, arith}
use kddv.Json.{JsonLib}
use kddv.Sniffer.{Soem, PacketSniffer}
use kddv.Sniffer.Thread.{
  interface, outside, in_destructor, Capturing, idle, Step, start, stop_sniff, destroy, join,
  join_last, arrive, read_packet, end_of_file, capture_failed, broken_file, broken_interface, Run,
}
use kddv.Sniffer.Thread.Resuming.{resumed}

module _ (J : JsonLib) (soem : Soem) where
  abbrev pub is_failure : {p q : Capturing J} → Step J soem p q → Bool
  is_failure (capture_failed _) = true
  is_failure _ = false

  -- Steps of either thread while the capture does not fail.
  pub data Unfailing (p : Capturing J) : Capturing J → Type 0 where
    reached : Unfailing p p
    go_on :
        {q r : Capturing J}
        → Unfailing p q
        → (move : Step J soem q r) → is_failure move ≡ false
        → Unfailing p r

  -- In the destructor, with the thread in the loop over an interface and nothing to break it.
  pub record Waits (p : Capturing J) : Type 0 where
    pub destroying : p.caller ≡ in_destructor
    pub looping : p.in_loop ≡ true
    pub unbroken : p.break_loop ≡ false
    pub live : p.capture ≡ interface

  Step-Waits :
      (p q : Capturing J) (move : Step J soem p q) → is_failure move ≡ false → Waits p → Waits q
  Step-Waits p q (start out _) is w = absurd (ground (arith, out, w.destroying))
  Step-Waits p q (stop_sniff out) is w = absurd (ground (arith, out, w.destroying))
  Step-Waits p q (destroy out) is w = absurd (ground (arith, out, w.destroying))
  Step-Waits p q (join at _) is w = absurd (ground (arith, at, w.destroying))
  Step-Waits p q (join_last _ off) is w = absurd (ground (arith, off, w.looping))
  Step-Waits p q (arrive a s events _ _ _) is w = record {
    destroying = w.destroying;
    looping = w.looping;
    unbroken = w.unbroken;
    live = w.live;
  }
  Step-Waits p q (read_packet a rest s events _ at _) is w = absurd (ground (arith, at, w.live))
  Step-Waits p q (end_of_file _ at) is w = absurd (ground (arith, at, w.live))
  Step-Waits p q (capture_failed _) is w = absurd (ground (arith, is))
  Step-Waits p q (broken_file _ _ flag _) is w = absurd (ground (arith, flag, w.unbroken))
  Step-Waits p q (broken_interface _ _ flag _) is w = absurd (ground (arith, flag, w.unbroken))

  waiting : (p q : Capturing J) → Waits p → Unfailing p q → Waits q
  waiting p q w reached = w
  waiting p q w (go_on {q = mid} moves move is) = Step-Waits mid q move is (waiting p mid w moves)

  -- The destructor of a sniffer of an interface whose thread is in the loop, with no `stop` before
  -- it, waits for as long as the capture does not fail, whatever packets arrive: neither the
  -- destructor nor the loop ends.
  pub destructor_waits :
      (s : PacketSniffer J) (p q : Capturing J)
      → Run J soem (idle J s interface) p
      → p.caller ≡ outside
      → p.in_loop ≡ true
      → p.break_loop ≡ false
      → Unfailing (record p { caller = in_destructor }) q
      → (q.caller ≡ in_destructor) × (q.in_loop ≡ true)
  destructor_waits s p q run at on unbroken moves =
      let (_, live) = resumed J soem s interface p run in
      let first : Waits (record p { caller = in_destructor }) = record {
        destroying = refl;
        looping = on;
        unbroken = unbroken;
        live = live;
      } in
      let last = waiting (record p { caller = in_destructor }) q first moves in
      (last.destroying, last.looping)
