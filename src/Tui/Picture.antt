-- ===== src/Tui/Picture.antt =====
-- What a viewer reads off the drawing commands: the texts, and which of them stand out.
use kddv.Base.{
  ◌≡◌, refl, ap, ◌∙◌, ℕ, zero, suc, ◌+◌, ◌≤◌, ◌<◌, ℤ, pos, negsuc, ◌-ℤ◌, ◌==◌, Bool, true, false,
  inl, inr, Bool-cases, some, some-injective, List, [], ◌∷◌, ◌++◌, map, append-nil, ◌*◌, length,
  get_elem?, if◌then◌else◌, arith, ltb,
}
use Prim.Native.Nat.{min}
use kddv.Text.{Text}
use kddv.Slave.{
  EthercatSlave, slave_id, get_rx_variables, get_tx_variables, get_rx_values, get_tx_values,
}
use kddv.Slave.Views.{tables_aligned}
use kddv.Tui.{
  Tui, Draw, erase, horizontal_line, vertical_line, standout_on, standout_off, print, refresh,
  standout, draw_rows, elem_of, draw_slaves, data_callback,
}
use kddv.Tui.Undisturbed.{clamp, names_drawn, no_keys, draw_slaves-no_keys, data_callback-clamp}

-- The texts, in their order.
pub printed : List Draw → List Text
printed [] = []
printed (print row column t ∷ ds) = t ∷ printed ds
printed (erase ∷ ds) = printed ds
printed (horizontal_line row column n ∷ ds) = printed ds
printed (vertical_line row column n ∷ ds) = printed ds
printed (standout_on ∷ ds) = printed ds
printed (standout_off ∷ ds) = printed ds
printed (refresh ∷ ds) = printed ds

-- The texts that stand out, where the attribute is on or off at first.
pub lit : Bool → List Draw → List Text
lit on [] = []
lit on (print row column t ∷ ds) = let more = lit on ds in if on then t ∷ more else more
lit on (erase ∷ ds) = lit on ds
lit on (horizontal_line row column n ∷ ds) = lit on ds
lit on (vertical_line row column n ∷ ds) = lit on ds
lit on (standout_on ∷ ds) = lit true ds
lit on (standout_off ∷ ds) = lit false ds
lit on (refresh ∷ ds) = lit on ds

-- Each name with its value behind it.
pub interleave : List Text → List Text → List Text
interleave [] values = []
interleave (v ∷ variables) [] = []
interleave (v ∷ variables) (value ∷ values) = v ∷ value ∷ interleave variables values

printed-append : (ds es : List Draw) → printed (ds ++ es) ≡ printed ds ++ printed es
unfolding printed
printed-append [] es = refl
printed-append (print row column t ∷ ds) es = ap (λ l. t ∷ l) (printed-append ds es)
printed-append (erase ∷ ds) es = printed-append ds es
printed-append (horizontal_line row column n ∷ ds) es = printed-append ds es
printed-append (vertical_line row column n ∷ ds) es = printed-append ds es
printed-append (standout_on ∷ ds) es = printed-append ds es
printed-append (standout_off ∷ ds) es = printed-append ds es
printed-append (refresh ∷ ds) es = printed-append ds es

-- Rows of equally many names and values are drawn, none of them standing out.
draw_rows-some :
    (first end j : ℕ) (variables values : List Text)
    → length values ≡ length variables
    → (rows : List Draw) × (draw_rows first end j variables values ≡ some rows)
      × (printed rows ≡ interleave variables values)
      × ((es : List Draw) → lit false (rows ++ es) ≡ lit false es)
unfolding draw_rows printed lit interleave
draw_rows-some first end j [] values h = ([], refl, refl, λ es. refl)
draw_rows-some first end j (v ∷ variables) [] h = absurd (omega (arith, h))
draw_rows-some first end j (v ∷ variables) (value ∷ values) h =
    let (rows, e, texts, dark) =
      draw_rows-some first end (suc j) variables values (omega (arith, h)) in
    (
      print (j + 2) (pos first) v ∷ print (j + 2) (pos end -ℤ pos (length value)) value ∷ rows,
      rw e refl,
      ap (λ l. v ∷ value ∷ l) texts,
      dark,
    )

names_printed :
    (selected : ℤ) (i : ℕ) (slaves : List EthercatSlave)
    → printed (names_drawn selected i slaves) ≡ map (λ s. slave_id s.slave_info) slaves
unfolding names_drawn printed standout
names_printed selected i [] = refl
names_printed (negsuc n) i (s ∷ rest) =
    ap (λ l. slave_id s.slave_info ∷ l) (names_printed (negsuc n) (suc i) rest)
names_printed (pos n) i (s ∷ rest) =
    let more = ap (λ l. slave_id s.slave_info ∷ l) (names_printed (pos n) (suc i) rest) in
    elim (Bool-cases (i == n)) [ inl e ↦ rw e more | inr e ↦ rw e more ]

names_dark :
    (n i : ℕ) (slaves : List EthercatSlave) (es : List Draw)
    → n < i
    → lit false (names_drawn (pos n) i slaves ++ es) ≡ lit false es
unfolding names_drawn lit standout
names_dark n i [] es h = refl
names_dark n i (s ∷ rest) es h =
    let apart : (i == n) ≡ false = ground (arith, h) in
    rw apart (names_dark n (suc i) rest es (omega (arith, h)))

names_lit :
    (k n i : ℕ) (slaves : List EthercatSlave) (es : List Draw) {s : EthercatSlave}
    → i + k ≡ n
    → get_elem? slaves k ≡ some s
    → lit false (names_drawn (pos n) i slaves ++ es) ≡ slave_id s.slave_info ∷ lit false es
unfolding names_drawn lit standout
names_lit k n i [] es at h = ground arith
names_lit zero n i (s ∷ rest) es {s = s'} at h =
    let here : (i == n) ≡ true = ground (arith, at) in
    rw here (
      rw (some-injective _ _ h)
        (ap (λ l. slave_id s'.slave_info ∷ l) (names_dark n (suc i) rest es (omega (arith, at)))))
names_lit (suc k) n i (s ∷ rest) es at h =
    let apart : (i == n) ≡ false = ground (arith, at) in
    rw apart (names_lit k n (suc i) rest es (omega (arith, at)) h)

-- The position in a list with `last` behind the first that is nearest to a number.
abbrev pub nearest : ℤ → ℕ → ℕ
nearest (negsuc n) last = 0
nearest (pos n) last = min n last

clamp-nearest : (selected : ℤ) (last : ℕ) → clamp (suc last) selected ≡ pos (nearest selected last)
unfolding clamp
clamp-nearest (negsuc n) last = refl
clamp-nearest (pos n) last = elim (Bool-cases (ltb n (suc last))) [
  | inl e ↦ rw e (ap pos (ground (arith, e)))
  | inr e ↦ rw e (ap pos (ground (arith, e)))
]

elem_at :
    (slaves : List EthercatSlave) (s : EthercatSlave) (k : ℕ)
    → k ≤ length slaves
    → (found : EthercatSlave) × (get_elem? (s ∷ slaves) k ≡ some found)
elem_at slaves s zero h = (s, refl)
elem_at [] s (suc k) h = absurd (omega (arith, h))
elem_at (s' ∷ rest) s (suc k) h = elem_at rest s' k (omega (arith, h))

nearest_le : (selected : ℤ) (last : ℕ) → nearest selected last ≤ last
nearest_le (negsuc n) last = omega arith
nearest_le (pos n) last = omega arith

-- With at least one slave, and no key pressed meanwhile, `dataCallback` succeeds. It moves the selection to the nearest slave
-- there is, and prints the names of all slaves, then the commands and the sensors of the selected
-- one, each variable followed by its value; the name of the selected slave alone stands out.
pub data_callback_picture :
    (t : Tui) (s : EthercatSlave) (rest : List EthercatSlave)
    → (shown : EthercatSlave) × (draws : List Draw) × (get_elem?
          (s ∷ rest)
          (nearest t.selected_slave (length rest))
        ≡ some shown)
      × (data_callback t (s ∷ rest)
          ≡ some
              (record t { selected_slave = pos (nearest t.selected_slave (length rest)) }, draws))
      × (printed draws
          ≡ map (λ x. slave_id x.slave_info) (s ∷ rest)
            ++ (interleave (get_rx_variables shown.device) (get_rx_values shown.device)
                ++ interleave (get_tx_variables shown.device) (get_tx_values shown.device)))
      × (lit false draws ≡ slave_id shown.slave_info ∷ [])
unfolding printed lit elem_of
data_callback_picture t s rest =
    let k = nearest t.selected_slave (length rest) in
    let (shown, is_shown) = elem_at rest s k (nearest_le t.selected_slave (length rest)) in
    let (rx_fit, _, tx_fit, _) = tables_aligned shown.device in
    let (rx_rows, rx_drawn, rx_texts, rx_dark) =
      draw_rows-some 0 36 0 (get_rx_variables shown.device) (get_rx_values shown.device) rx_fit in
    let (tx_rows, tx_drawn, tx_texts, tx_dark) =
      draw_rows-some 40 76 0 (get_tx_variables shown.device) (get_tx_values shown.device) tx_fit in
    let lines : List Draw =
      vertical_line 2 38 (length (get_tx_variables shown.device))
      ∷ vertical_line 2 78 (length (get_tx_variables shown.device))
      ∷ refresh
      ∷ [] in
    (
      shown,
      erase ∷ horizontal_line 1 0 (20 * length (s ∷ rest)) ∷ names_drawn (pos k) 0 (s ∷ rest)
          ++ (rx_rows ++ (tx_rows ++ lines)),
      is_shown,
      data_callback-clamp t (s ∷ rest)
          ∙ ap (λ selected. draw_slaves no_keys (record t { selected_slave = selected }) (s ∷ rest))
              (clamp-nearest t.selected_slave (length rest))
          ∙ draw_slaves-no_keys (record t { selected_slave = pos k }) (s ∷ rest) shown rx_rows
              tx_rows is_shown rx_drawn tx_drawn,
      printed-append (names_drawn (pos k) 0 (s ∷ rest)) (rx_rows ++ (tx_rows ++ lines))
          ∙ rw
              (
                names_printed (pos k) 0 (s ∷ rest),
                printed-append rx_rows (tx_rows ++ lines),
                printed-append tx_rows lines,
                rx_texts,
                tx_texts,
                append-nil,
              )
              refl,
      names_lit k k 0 (s ∷ rest) (rx_rows ++ (tx_rows ++ lines)) (omega arith) is_shown
          ∙ ap (λ l. slave_id shown.slave_info ∷ l) (rx_dark (tx_rows ++ lines) ∙ tx_dark lines),
    )
