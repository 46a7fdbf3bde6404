-- ===== src/Tui/Undisturbed.antt =====
-- `dataCallback` of src/tui.cpp while no key is pressed, when every use of `selected_slave` reads the
-- same number.
use kddv.Base.{
  ◌≡◌, refl, ap, ℕ, zero, suc, ◌*◌, ℤ, pos, negsuc, List, some, [], ◌∷◌, ◌++◌, length,
  if◌then◌else◌, ltb, arith,
}
use kddv.Slave.{
  EthercatSlave, slave_id, get_rx_variables, get_tx_variables, get_rx_values, get_tx_values,
}
use kddv.Tui.{
  Tui, Draw, erase, horizontal_line, vertical_line, refresh, draw_rows, elem_of, selected_of,
  standout_on, standout_off, print, Key, presses, guard_below, guard_above, standout, draw_names,
  draw_slaves, data_callback_during, data_callback,
}

-- Both guards in one.
unfoldable pub clamp : ℕ → ℤ → ℤ
clamp zero selected = negsuc 0
clamp (suc size) (negsuc n) = pos 0
clamp (suc size) (pos n) = if ltb n (suc size) then pos n else pos size

-- The names, with the selected one between the two attributes.
unfoldable pub names_drawn : ℤ → ℕ → List EthercatSlave → List Draw
unfolding standout
names_drawn selected i [] = []
names_drawn selected i (s ∷ rest) =
    standout standout_on selected i
    ++ (print 0 (pos (i * 20)) (slave_id s.slave_info) ∷ standout standout_off selected i)
    ++ names_drawn selected (suc i) rest

abbrev pub no_keys : ℕ → List Key
no_keys at = []

pub draw_names-no_keys :
    (t : Tui) (i : ℕ) (slaves : List EthercatSlave)
    → draw_names no_keys t i slaves ≡ (t, names_drawn t.selected_slave i slaves)
unfolding draw_names names_drawn presses
draw_names-no_keys t i [] = refl
draw_names-no_keys t i (s ∷ rest) = rw (draw_names-no_keys t (suc i) rest) refl

guards-clamp :
    (size : ℕ) (selected : ℤ) → guard_above size (guard_below selected) ≡ clamp size selected
unfolding guard_above guard_below clamp
guards-clamp zero selected = refl
guards-clamp (suc size) (negsuc n) = ground arith
guards-clamp (suc size) (pos n) = refl

pub data_callback-clamp :
    (t : Tui) (slaves : List EthercatSlave)
    → data_callback t slaves
      ≡ draw_slaves no_keys
          (record t { selected_slave = clamp (length slaves) t.selected_slave })
          slaves
unfolding data_callback data_callback_during presses
data_callback-clamp t slaves =
    ap (λ z. draw_slaves no_keys (record t { selected_slave = z }) slaves)
      (guards-clamp (length slaves) t.selected_slave)

-- With the slave that every use reads, and the rows of its tables.
pub draw_slaves-no_keys :
    (t : Tui) (slaves : List EthercatSlave) (s : EthercatSlave) (rx_rows tx_rows : List Draw)
    → elem_of slaves t.selected_slave ≡ some s
    → draw_rows 0 36 0 (get_rx_variables s.device) (get_rx_values s.device) ≡ some rx_rows
    → draw_rows 40 76 0 (get_tx_variables s.device) (get_tx_values s.device) ≡ some tx_rows
    → draw_slaves no_keys t slaves
      ≡ some (
        t,
        erase ∷ horizontal_line 1 0 (20 * length slaves) ∷ names_drawn t.selected_slave 0 slaves
            ++ (rx_rows
                ++ (tx_rows
                    ++ (vertical_line 2 38 (length (get_tx_variables s.device))
                        ∷ vertical_line 2 78 (length (get_tx_variables s.device))
                        ∷ refresh
                        ∷ []))),
      )
unfolding draw_slaves selected_of presses
draw_slaves-no_keys t slaves s rx_rows tx_rows found rx tx =
    rw (draw_names-no_keys t 0 slaves, found, found, found, found, rx, tx) refl
