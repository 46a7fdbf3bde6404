-- ===== src/Tui/Race.antt =====
-- A key that falls while `dataCallback` of src/tui.cpp runs, behind its guards: `start` and
-- `dataCallback` run in two threads and share `selected_slave`.
use kddv.Base.{
  ◌≡◌, refl, ap, ◌∙◌, ℕ, zero, suc, ◌+◌, ◌*◌, ◌≤◌, ℤ, pos, ◌+ℤ◌, none, [], ◌∷◌, List, length,
  get_elem?, ◌==◌, ltb, if◌then◌else◌, inl, inr, true, false, Bool-cases, arith,
}
use kddv.Slave.{EthercatSlave}
use kddv.Tui.{
  Tui, Key, right, press, presses, guard_below, guard_above, elem_of, selected_of, draw_names,
  draw_slaves, data_callback_during,
}

-- The right arrow key once, before the use of this number.
abbrev pub once : ℕ → ℕ → List Key
once k at = if at == k then right ∷ [] else []

-- The selection before the use `at`, at position `n` until the key.
place : ℕ → ℕ → ℕ → ℤ
place k n at = if ltb k at then pos (suc n) else pos n

next_int : (n : ℕ) → pos n +ℤ pos 1 ≡ pos (suc n)
unfolding ◌+ℤ◌
next_int n = ground arith

once-before : (k at : ℕ) → suc at ≤ k → once k at ≡ []
once-before k at h = let apart : (at == k) ≡ false = ground (arith, h) in rw apart refl

place-moves : (k n at : ℕ) → (at == k) ≡ false → place k n at ≡ place k n (suc at)
unfolding place
place-moves k n at apart = ground (arith, apart)

place-reached : (k n at : ℕ) → (at == k) ≡ true → place k n at +ℤ pos 1 ≡ place k n (suc at)
unfolding place
place-reached k n at e =
    let early : ltb k at ≡ false = ground (arith, e) in
    let late : ltb k (suc at) ≡ true = ground (arith, e) in rw (early, late) (next_int n)

presses-place :
    (k n at next : ℕ) (t : Tui)
    → suc at ≡ next
    → t.selected_slave ≡ place k n at
    → (presses (once k at) t).selected_slave ≡ place k n next
unfolding presses press
presses-place k n at next t is_next h = elim (Bool-cases (at == k)) [
  | inl e ↦ rw (e, h) (place-reached k n at e ∙ ap (place k n) is_next)
  | inr apart ↦ rw apart (h ∙ place-moves k n at apart ∙ ap (place k n) is_next)
]

draw_names-place :
    (k n : ℕ) (slaves : List EthercatSlave) (i : ℕ) (t : Tui)
    → t.selected_slave ≡ place k n (2 + i * 2)
    → (draw_names (once k) t i slaves).0.selected_slave ≡ place k n (2 + (i + length slaves) * 2)
unfolding draw_names
draw_names-place k n [] i t h = h ∙ ap (λ j. place k n (2 + j * 2)) (omega arith)
draw_names-place k n (s ∷ rest) i t h =
    let at_on = presses-place k n (2 + i * 2) (3 + i * 2) t (omega arith) h in
    let at_off =
      presses-place k n (3 + i * 2) (2 + suc i * 2) (presses (once k (2 + i * 2)) t) (omega arith)
        at_on in
    draw_names-place k n rest (suc i)
      (presses (once k (3 + i * 2)) (presses (once k (2 + i * 2)) t)) at_off
    ∙ ap (λ j. place k n (2 + j * 2)) (omega arith)

get_elem?-none :
    (slaves : List EthercatSlave) (n : ℕ) → length slaves ≤ n → get_elem? slaves n ≡ none
get_elem?-none [] n h = refl
get_elem?-none (s ∷ rest) zero h = absurd (omega (arith, h))
get_elem?-none (s ∷ rest) (suc n) h = get_elem?-none rest n (omega (arith, h))

draw_slaves-once :
    (k n : ℕ) (t : Tui) (slaves : List EthercatSlave)
    → length slaves ≡ suc n
    → t.selected_slave ≡ pos n
    → 2 ≤ k
    → k ≤ 2 + length slaves * 2
    → draw_slaves (once k) t slaves ≡ none
unfolding draw_slaves selected_of elem_of place
draw_slaves-once k n t slaves size at_last behind before =
    let early : ltb k 2 ≡ false = ground (arith, behind) in
    let late : ltb k (3 + length slaves * 2) ≡ true = ground (arith, before) in
    let from_start : 0 + length slaves ≡ length slaves = omega arith in
    let drawn =
      draw_names-place k n slaves 0 t (at_last ∙ rw early refl)
      ∙ ap (λ j. place k n (2 + j * 2)) from_start in
    let used : (presses (once k (2 + length slaves * 2))
          (draw_names (once k) t 0 slaves).0).selected_slave
        ≡ pos (suc n) =
      presses-place k n (2 + length slaves * 2) (3 + length slaves * 2) _ (omega arith) drawn
      ∙ rw late refl in
    rw (used, get_elem?-none slaves (suc n) (omega (arith, size))) refl

guards-last :
    (slaves : List EthercatSlave) (selected : ℤ) (n : ℕ)
    → length slaves ≡ suc n
    → selected ≡ pos n
    → guard_above (length slaves) (guard_below selected) ≡ pos n
unfolding guard_above guard_below
guards-last slaves selected n size at_last =
    let inside : ltb n (suc n) ≡ true = ground arith in rw (size, at_last, inside) refl

-- Where the last slave is selected and the right arrow key falls between the guards of
-- `dataCallback` and its first `slaves[selected_slave]`, at any of the uses in between,
-- `dataCallback` reads the list of slaves out of range.
pub key_behind_guards :
    (t : Tui) (slaves : List EthercatSlave) (n k : ℕ)
    → length slaves ≡ suc n
    → t.selected_slave ≡ pos n
    → 2 ≤ k
    → k ≤ 2 + length slaves * 2
    → data_callback_during (once k) t slaves ≡ none
unfolding data_callback_during presses
key_behind_guards t slaves n k size at_last behind before =
    rw (once-before k 0 (omega (arith, behind)), once-before k 1 (omega (arith, behind))) refl
    ∙ ap (λ z. draw_slaves (once k) (record t { selected_slave = z }) slaves)
        (guards-last slaves t.selected_slave n size at_last)
    ∙ draw_slaves-once k n (record t { selected_slave = pos n }) slaves size refl behind before
