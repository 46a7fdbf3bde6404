-- ===== src/Generator/Endless.antt =====
-- When `si_PDOassign` ends. Its loop counter is a `uint16`, and so is its bound.
use kddv.Base.{
  ℕ, zero, suc, ◌+◌, ◌%◌, ◌<◌, ◌≤◌, ◌≡◌, refl, ℤ, pos, Option, none, some, arith, le→leb,
}
use native.Mathlib.Nat.{mod-eq_of_lt}
use kddv.Generator.{SdoRead, Assign, assign_loop, assign_pdo, si_pdo_assign}

-- The rounds from `i` on, `count` of them, with no counter that wraps.
unfoldable pub assign_range : ℕ → SdoRead → ℕ → ℕ → ℤ → ℕ → Assign → Assign
assign_range zero read slave pdo_assign mapoffset i a = a
assign_range (suc count) read slave pdo_assign mapoffset i a =
    assign_range count read slave pdo_assign mapoffset (i + 1)
      (assign_pdo read slave pdo_assign mapoffset i a)

module _ (read : SdoRead) (slave pdo_assign : ℕ) (mapoffset : ℤ) where
  -- With a bound below 65535 and fuel for one round more than the bound the loop ends.
  pub assign_loop-range :
      (count fuel nidx i : ℕ) (a : Assign)
      → nidx < 65535
      → i + count ≡ nidx + 1
      → count < fuel
      → assign_loop fuel read slave pdo_assign mapoffset nidx i a
        ≡ some (assign_range count read slave pdo_assign mapoffset i a)
  unfolding assign_loop assign_range
  assign_loop-range count zero nidx i a h e f = absurd (omega arith)
  assign_loop-range zero (suc fuel) nidx i a h e f = ground arith
  assign_loop-range (suc count) (suc fuel) nidx i a h e f =
      rw (le→leb i nidx (omega arith), mod-eq_of_lt (within i nidx h (omega arith)))
        (assign_loop-range count fuel nidx (i + 1) _ h (omega arith) (omega arith))
    where
      within : (i nidx : ℕ) → nidx < 65535 → i ≤ nidx → i + 1 < 65536
      within i nidx h k = omega arith

  -- At the bound 65535 no fuel is enough.
  pub assign_loop_endless :
      (fuel i : ℕ) (a : Assign)
      → i < 65536
      → assign_loop fuel read slave pdo_assign mapoffset 65535 i a ≡ none
  unfolding assign_loop
  assign_loop_endless zero i a h = refl
  assign_loop_endless (suc fuel) i a h =
      rw (le→leb i 65535 (omega arith)) (assign_loop_endless fuel ((i + 1) % 65536) _ (omega arith))

  -- A slave that answers 65535 assigned PDOs keeps the generator in the loop for ever.
  pub si_pdo_assign_endless :
      (fuel bitoffset : ℕ) (starting_offset : Option ℤ) (wkc : ℕ)
      → read slave pdo_assign 0 ≡ (pos (suc wkc), 65535)
      → si_pdo_assign fuel read slave pdo_assign mapoffset bitoffset starting_offset ≡ none
  unfolding si_pdo_assign
  si_pdo_assign_endless fuel bitoffset starting_offset wkc e =
      rw (e, assign_loop_endless fuel 1 _ (omega arith)) (ground arith)
