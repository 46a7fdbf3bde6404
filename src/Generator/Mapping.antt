-- ===== src/Generator/Mapping.antt =====
-- What `si_PDOassign` computes: all mapped bits, and where the first entry of the first PDO starts.
use kddv.Base.{
  ℕ, zero, suc, ◌+◌, ◌/◌, ◌%◌, ◌<◌, ◌≡◌, refl, sym, subst, ◌∙◌, ap, ◌||◌, ℤ, pos, negsuc, ◌+ℤ◌,
  Option, some, ltb, Bool-cases, inl, inr, Bool, false, pos_part, ◌^◌, if◌then◌else◌, arith,
}
use native.Mathlib.Nat.{mod-eq_of_lt}
use kddv.Generator.{SdoRead, Assign, leaves_int, map_entry, entry_loop, assign_pdo, si_pdo_assign}
use kddv.Generator.Endless.{assign_range, assign_loop-range}

fits_pos : (n : ℕ) → n < 2 ^ 31 → leaves_int (pos n) ≡ false
fits_pos n h = ground (arith, h)

fits_sum : (z : ℤ) (n : ℕ) → pos_part z + n < 2 ^ 31 → leaves_int (z +ℤ pos n) ≡ false
unfolding ◌+ℤ◌
fits_sum (pos m) n h = ground (arith, h)
fits_sum (negsuc m) n h = ground (arith, h)

no_overflow :
    {before size place offset : Bool}
    → before ≡ false
    → size ≡ false
    → place ≡ false
    → offset ≡ false
    → (before || (size || (place || offset))) ≡ false
no_overflow a b c d = rw (a, b, c, d) refl

module _ (read : SdoRead) (slave pdo_assign : ℕ) where
  -- The index of the i-th assigned PDO, its number of entries, and the bits of an entry.
  abbrev pub pdo_index : ℕ → ℕ
  pdo_index i = (read slave pdo_assign (i % 256)).1 % 65536

  abbrev pub entry_count : ℕ → ℕ
  entry_count idx = if ltb 0 idx then (read slave idx 0).1 % 256 else 0

  abbrev entry_bits : ℕ → ℕ → ℕ
  entry_bits idx k = (read slave idx (k % 256)).1 % 256

  -- The bits of `count` entries of a PDO from the k-th on.
  unfoldable pub entries_bits : ℕ → ℕ → ℕ → ℕ
  entries_bits idx zero k = 0
  entries_bits idx (suc count) k = entry_bits idx k + entries_bits idx count (k + 1)

  -- The bits of `count` assigned PDOs from the i-th on.
  unfoldable pub total_bits : ℕ → ℕ → ℕ
  unfolding entries_bits
  total_bits zero i = 0
  total_bits (suc count) i =
      entries_bits (pdo_index i) (entry_count (pdo_index i)) 1 + total_bits count (i + 1)

  module _ (mapoffset : ℤ) where
    entry_loop_bits :
        (idx i count k : ℕ) (a : Assign)
        → ((entry_loop read slave idx mapoffset i count k a).bsize
            ≡ a.bsize + entries_bits idx count k)
    unfolding entry_loop map_entry entries_bits
    entry_loop_bits idx i zero k a = omega arith
    entry_loop_bits idx i (suc count) k a =
        omega
          (arith, entry_loop_bits idx i count (k + 1) (map_entry read slave idx mapoffset i k a))

    -- `total` more bits fit the `int`s.
    abbrev Room : Assign → ℕ → Type 0
    Room a total =
        (a.overflow ≡ false)
        × (a.bsize + total < 2 ^ 31)
        × (a.bitoffset + total < 2 ^ 31)
        × (pos_part mapoffset + (a.bitoffset + total) / 8 < 2 ^ 31)

    map_entry-Room :
        (idx i k total : ℕ) (a : Assign)
        → Room a (entry_bits idx k + total)
        → Room (map_entry read slave idx mapoffset i k a) total
    unfolding map_entry
    map_entry-Room idx i k total a (fine, size, offset, place) = (
      no_overflow fine (fits_pos (a.bsize + entry_bits idx k) (omega arith))
          (fits_sum mapoffset (a.bitoffset / 8) (omega arith))
          (fits_pos (a.bitoffset + entry_bits idx k) (omega arith)),
      omega arith,
      omega arith,
      omega arith,
    )

    Room-of : (a : Assign) (m n : ℕ) → m ≡ n → Room a m → Room a n
    Room-of a m n e room = subst (Room a) e room

    entry_loop-Room :
        (idx i count k total : ℕ) (a : Assign)
        → Room a (entries_bits idx count k + total)
        → Room (entry_loop read slave idx mapoffset i count k a) total
    unfolding entry_loop entries_bits
    entry_loop-Room idx i zero k total a room = Room-of a (0 + total) total (omega arith) room
    entry_loop-Room idx i (suc count) k total a room =
        entry_loop-Room idx i count (k + 1) total (map_entry read slave idx mapoffset i k a) (
          map_entry-Room idx i k (entries_bits idx count (k + 1) + total) a (
            Room-of a (entry_bits idx k + entries_bits idx count (k + 1) + total)
              (entry_bits idx k + (entries_bits idx count (k + 1) + total)) (omega arith) room))

    -- From the second entry on the offset stays.
    entry_loop_late :
        (idx i count k : ℕ) (a : Assign)
        → 1 < k
        → (entry_loop read slave idx mapoffset i count k a).starting_offset ≡ a.starting_offset
    unfolding entry_loop
    entry_loop_late idx i zero k a h = refl
    entry_loop_late idx i (suc count) k a h =
        entry_loop_late idx i count (k + 1) _ (omega arith) ∙ (unfold map_entry in ground arith)

    -- Beyond the first PDO too.
    entry_loop_other :
        (idx i count k : ℕ) (a : Assign)
        → 1 < i
        → (entry_loop read slave idx mapoffset i count k a).starting_offset ≡ a.starting_offset
    unfolding entry_loop
    entry_loop_other idx i zero k a h = refl
    entry_loop_other idx i (suc count) k a h =
        entry_loop_other idx i count (k + 1) _ h ∙ (unfold map_entry in ground arith)

    entry_first :
        (idx : ℕ) (a : Assign)
        → (map_entry read slave idx mapoffset 1 1 a).starting_offset
          ≡ some (mapoffset +ℤ pos (a.bitoffset / 8))
    unfolding map_entry
    entry_first idx a = refl

    -- In the first PDO the first entry sets it, if there is one.
    entry_loop_first :
        (idx count : ℕ) (a : Assign)
        → (entry_loop read slave idx mapoffset 1 count 1 a).starting_offset
          ≡ (if ltb 0 count then some (mapoffset +ℤ pos (a.bitoffset / 8)) else a.starting_offset)
    unfolding entry_loop
    entry_loop_first idx zero a = refl
    entry_loop_first idx (suc count) a =
        entry_loop_late idx 1 count 2 _ (omega arith) ∙ entry_first idx a ∙ ground arith

    -- A PDO is a run of its entries; index 0 stands for a PDO without any.
    assign_pdo-loop :
        (i : ℕ) (a : Assign)
        → assign_pdo read slave pdo_assign mapoffset i a
          ≡ entry_loop read slave (pdo_index i) mapoffset i (entry_count (pdo_index i)) 1 a
    unfolding assign_pdo
    assign_pdo-loop i a = elim (Bool-cases (ltb 0 (pdo_index i))) [
      | inl e ↦ rw e
      | inr e ↦ rw e (unfold entry_loop in refl)
    ]

    assign_range_bits :
        (count i : ℕ) (a : Assign)
        → (assign_range count read slave pdo_assign mapoffset i a).bsize
          ≡ a.bsize + total_bits count i
    unfolding assign_range total_bits
    assign_range_bits zero i a = omega arith
    assign_range_bits (suc count) i a = omega (
      arith,
      assign_range_bits count (i + 1) (assign_pdo read slave pdo_assign mapoffset i a),
      ap (λ (x : Assign). x.bsize) (assign_pdo-loop i a),
      entry_loop_bits (pdo_index i) i (entry_count (pdo_index i)) 1 a,
    )

    assign_range-Room :
        (count i total : ℕ) (a : Assign)
        → Room a (total_bits count i + total)
        → Room (assign_range count read slave pdo_assign mapoffset i a) total
    unfolding assign_range total_bits
    assign_range-Room zero i total a room = Room-of a (0 + total) total (omega arith) room
    assign_range-Room (suc count) i total a room =
        assign_range-Room count (i + 1) total (assign_pdo read slave pdo_assign mapoffset i a) (
          subst (λ x. Room x (total_bits count (i + 1) + total)) (sym (assign_pdo-loop i a))
            (entry_loop-Room (pdo_index i) i (entry_count (pdo_index i)) 1
              (total_bits count (i + 1) + total) a
              (Room-of a
                (entries_bits (pdo_index i) (entry_count (pdo_index i)) 1
                  + total_bits count (i + 1)
                  + total)
                (entries_bits (pdo_index i) (entry_count (pdo_index i)) 1
                  + (total_bits count (i + 1) + total))
                (omega arith) room)))

    assign_range_other :
        (count i : ℕ) (a : Assign)
        → 1 < i
        → (assign_range count read slave pdo_assign mapoffset i a).starting_offset
          ≡ a.starting_offset
    unfolding assign_range
    assign_range_other zero i a h = refl
    assign_range_other (suc count) i a h =
        assign_range_other count (i + 1) _ (omega arith)
        ∙ ap (λ (x : Assign). x.starting_offset) (assign_pdo-loop i a)
        ∙ entry_loop_other (pdo_index i) i (entry_count (pdo_index i)) 1 a h

    assign_range_first :
        (count : ℕ) (a : Assign)
        → (assign_range (suc count) read slave pdo_assign mapoffset 1 a).starting_offset ≡ (
            if ltb 0 (entry_count (pdo_index 1))
            then some (mapoffset +ℤ pos (a.bitoffset / 8))
            else a.starting_offset)
    unfolding assign_range
    assign_range_first count a =
        assign_range_other count 2 _ (omega arith)
        ∙ ap (λ (x : Assign). x.starting_offset) (assign_pdo-loop 1 a)
        ∙ entry_loop_first (pdo_index 1) (entry_count (pdo_index 1)) a

    -- For a slave that answers the number of its assigned PDOs, between 1 and 65534, and whose entries
    -- have so few bits in all that neither their sum, nor the offset in bits, nor the place in `IOmap`
    -- leaves the range of `int`: `si_PDOassign` ends within one round more than that number. It
    -- returns the sum of the bits of all entries of all assigned PDOs, and stores the place of the
    -- byte in which the first PDO's first entry starts, if the first PDO has an entry, and nothing
    -- otherwise.
    pub si_pdo_assign_bits :
        (fuel bitoffset : ℕ) (starting_offset : Option ℤ) (wkc count : ℕ)
        → read slave pdo_assign 0 ≡ (pos (suc wkc), suc count)
        → suc count < 65535
        → suc count < fuel
        → bitoffset + total_bits (suc count) 1 < 2 ^ 31
        → pos_part mapoffset + (bitoffset + total_bits (suc count) 1) / 8 < 2 ^ 31
        → si_pdo_assign fuel read slave pdo_assign mapoffset bitoffset starting_offset
          ≡ some (
              some (
                total_bits (suc count) 1,
                if ltb 0 (entry_count (pdo_index 1))
                    then some (mapoffset +ℤ pos (bitoffset / 8))
                    else starting_offset,
              ))
    unfolding si_pdo_assign
    si_pdo_assign_bits fuel bitoffset starting_offset wkc count e small enough fits place =
        let start : Assign = record {
          bsize = 0;
          bitoffset = bitoffset;
          starting_offset = starting_offset;
          overflow = false;
        } in
        let loop =
          assign_loop-range read slave pdo_assign mapoffset (suc count) fuel (suc count) 1 start
            small (omega arith) enough in
        let total : ℕ = total_bits (suc count) 1 in
        let room : Room start total = (refl, omega (arith, fits), fits, place) in
        let (fine, _, _, _) =
          assign_range-Room (suc count) 1 0 start
            (Room-of start total (total + 0) (omega arith) room) in
        rw
          (
            e,
            mod-eq_of_lt (below (suc count) small),
            loop,
            fine,
            assign_range_bits (suc count) 1 start,
            assign_range_first count start,
          )
          (ground arith)
      where
        below : (n : ℕ) → n < 65535 → n < 65536
        below n h = omega arith
