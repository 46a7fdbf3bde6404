-- ===== src/Tui.antt =====
-- src/tui.cpp: the settings of the terminal UI, the keys, and `dataCallback` as the drawing commands
-- that it gives to ncurses, in their order.
pub mod Undisturbed
pub mod Picture
pub mod Race
pub mod Start
pub mod Session
pub mod Windows
use kddv.Base.{
  ℕ, zero, suc, ◌+◌, ◌-◌, ◌*◌, ℤ, pos, negsuc, ◌+ℤ◌, ◌-ℤ◌, Bool, true, Option, none, some, ◌>>=◌,
  List, [], ◌∷◌, ◌++◌, ◌==◌, if◌then◌else◌, ltb, length, get_elem?,
}
use kddv.Text.{Text, is_empty}
use kddv.Slave.{
  EthercatSlave, slave_id, get_rx_variables, get_tx_variables, get_rx_values, get_tx_values,
}
use kddv.CommandLine.{Options}

-- What `main` and the keys change.
pub record Tui : Type 0 where
  pub ecat_src : Text
  pub network_interface : Text
  pub config_file_name : Text
  pub pcap_file_name : Text
  pub enable_zmq : Bool
  pub selected_slave : ℤ

given : Text → Text → Text
given value before = if is_empty value then before else value

-- The calls of `selectSource`, `selectNetworkInterface`, `setConfigFile`, `setPCAPFile` and
-- `enableZMQ` at the end of `main`.
unfoldable pub configure : Options → Tui → Tui
unfolding given
configure o t = record t {
  ecat_src = given o.input_source t.ecat_src;
  network_interface = given o.network_interface t.network_interface;
  config_file_name = given o.config_file t.config_file_name;
  pcap_file_name = given o.pcap_file t.pcap_file_name;
  enable_zmq = if o.publish_zmq then true else t.enable_zmq;
}

-- A key in the loop of `start`; `q` ends it. The number has no bound here.
pub data Key : Type 0 where
  left : Key
  right : Key
  other : Key

unfoldable pub press : Key → Tui → Tui
press left t = record t { selected_slave = t.selected_slave +ℤ negsuc 0 }
press right t = record t { selected_slave = t.selected_slave +ℤ pos 1 }
press other t = t

-- A call of ncurses, with the row and the column; `print` hands the text over as a format.
pub data Draw : Type 0 where
  erase : Draw
  horizontal_line : ℕ → ℕ → ℕ → Draw
  vertical_line : ℕ → ℕ → ℕ → Draw
  standout_on : Draw
  standout_off : Draw
  print : ℕ → ℤ → Text → Draw
  refresh : Draw

-- The keys that fall while `dataCallback` runs in the other thread, one after the other.
unfoldable pub presses : List Key → Tui → Tui
presses [] t = t
presses (k ∷ keys) t = presses keys (press k t)

-- The guards at the top. The second one compares an `int` with a `size_t`, where a negative number
-- is above every size, and the size of no slaves less one becomes the `int` -1.
unfoldable pub guard_below : ℤ → ℤ
guard_below (negsuc n) = pos 0
guard_below (pos n) = pos n

unfoldable pub guard_above : ℕ → ℤ → ℤ
guard_above zero selected = negsuc 0
guard_above (suc size) (negsuc n) = pos size
guard_above (suc size) (pos n) = if ltb n (suc size) then pos n else pos size

standout : Draw → ℤ → ℕ → List Draw
standout attribute (negsuc n) i = []
standout attribute (pos n) i = if i == n then attribute ∷ [] else []

-- The loop over the names, from index `i` on. Each test reads `selected_slave` again, and `keys`
-- are those that fall before each use of it, from 0.
unfoldable pub draw_names : (ℕ → List Key) → Tui → ℕ → List EthercatSlave → Tui × List Draw
unfolding standout
draw_names keys t i [] = (t, [])
draw_names keys t i (s ∷ rest) =
    let at_on = presses (keys (2 + i * 2)) t in
    let at_off = presses (keys (3 + i * 2)) at_on in
    let more = draw_names keys at_off (suc i) rest in
    (
      more.0,
      standout standout_on at_on.selected_slave i
          ++ (print 0 (pos (i * 20)) (slave_id s.slave_info)
              ∷ standout standout_off at_off.selected_slave i)
          ++ more.1,
    )

-- A loop over the variables, from index `j` on: a name at column `first`, and its value so that it
-- ends at column `end`. `none` is a read behind the last value.
unfoldable pub draw_rows : ℕ → ℕ → ℕ → List Text → List Text → Option (List Draw)
draw_rows first end j [] values = some []
draw_rows first end j (v ∷ variables) [] = none
draw_rows first end j (v ∷ variables) (value ∷ values) = do
  rest ← draw_rows first end (suc j) variables values
  some (print (j + 2) (pos first) v ∷ print (j + 2) (pos end -ℤ pos (length value)) value ∷ rest)

-- `slaves[selected_slave]`
unfoldable pub elem_of : List EthercatSlave → ℤ → Option EthercatSlave
elem_of slaves (negsuc n) = none
elem_of slaves (pos n) = get_elem? slaves n

-- A use of it, behind the keys that fall before.
selected_of : List Key → List EthercatSlave → Tui → Option (Tui × EthercatSlave)
unfolding elem_of
selected_of keys slaves t = do
  s ← elem_of slaves (presses keys t).selected_slave
  some (presses keys t, s)

-- `dataCallback` from `werase` on: the UI and the drawing commands, or `none` where an index is out
-- of range.
unfoldable pub draw_slaves : (ℕ → List Key) → Tui → List EthercatSlave → Option (Tui × List Draw)
unfolding draw_names draw_rows selected_of
draw_slaves keys t slaves = do
  let names = draw_names keys t 0 slaves
  let at = 2 + length slaves * 2
  a ← selected_of (keys at) slaves names.0
  b ← selected_of (keys (at + 1)) slaves a.0
  c ← selected_of (keys (at + 2)) slaves b.0
  d ← selected_of (keys (at + 3)) slaves c.0
  rx_rows ← draw_rows 0 36 0 (get_rx_variables a.1.device) (get_rx_values c.1.device)
  tx_rows ← draw_rows 40 76 0 (get_tx_variables b.1.device) (get_tx_values d.1.device)
  let rows = length (get_tx_variables b.1.device)
  some (
    d.0,
    (erase ∷ horizontal_line 1 0 (20 * length slaves) ∷ names.1)
        ++ (rx_rows
            ++ (tx_rows ++ (vertical_line 2 38 rows ∷ vertical_line 2 78 rows ∷ refresh ∷ []))),
  )

-- `dataCallback` while keys are pressed.
unfoldable pub data_callback_during :
    (ℕ → List Key) → Tui → List EthercatSlave → Option (Tui × List Draw)
unfolding presses guard_below guard_above draw_slaves
data_callback_during keys t slaves =
    let first = presses (keys 0) t in
    let second =
      presses (keys 1) (record first { selected_slave = guard_below first.selected_slave }) in
    draw_slaves keys
      (record second { selected_slave = guard_above (length slaves) second.selected_slave }) slaves

-- While none is pressed.
unfoldable pub data_callback : Tui → List EthercatSlave → Option (Tui × List Draw)
unfolding data_callback_during
data_callback t slaves = data_callback_during (λ at. []) t slaves
