-- ===== src/Generator.antt =====
-- src/generate_config_file.cpp. SOEM is a parameter: the object dictionaries of the slaves, which do
-- not change while they are read, and what it found on the bus. Integers are little-endian on the
-- host, so `etohs` and `etohl` do nothing. `none` stands for a run that does not end, for an `int`
-- that overflows, or for an offset which was never set and is used.
pub mod Mapping
pub mod Endless
pub mod Info
pub mod Listed
pub mod RoundTrip
pub mod Main
use kddv.Base.{
  ℕ, zero, suc, ◌+◌, ◌-◌, ◌/◌, ◌%◌, ◌<◌, ℤ, pos, ◌+ℤ◌, ltb_ℤ, Bool, true, false, not, ◌&&◌, ◌||◌,
  Option, none, some, ◌>>=◌, List, [], ◌∷◌, ◌++◌, ◌==◌, ltb, leb, if◌then◌else◌,
}
use kddv.Text.{Text, text, str_eq}
use kddv.Json.{JsonLib}

-- `ec_SDOread` by slave, index and subindex: its result, and what it leaves in the variable.
abbrev pub SdoRead : Type 0
SdoRead = ℕ → ℕ → ℕ → ℤ × ℕ

abbrev pub is_positive : ℤ → Bool
is_positive (pos n) = ltb 0 n
is_positive _ = false

-- The variables that the two loops of `si_PDOassign` change. `starting_offset` is `none` until it is
-- set. `overflow` tells whether a sum has left the range of `int`, which is undefined; the two loops
-- do not test these sums.
pub record Assign : Type 0 where
  pub bsize : ℕ
  pub bitoffset : ℕ
  pub starting_offset : Option ℤ
  pub overflow : Bool

-- The sums of this source do not go below the range.
abbrev pub leaves_int : ℤ → Bool
leaves_int z = not (ltb_ℤ z (pos 2147483648))

-- One mapped entry.
unfoldable pub map_entry : SdoRead → ℕ → ℕ → ℤ → ℕ → ℕ → Assign → Assign
map_entry read slave idx mapoffset idxloop subidxloop a =
    let bitlen = (read slave idx (subidxloop % 256)).1 % 256 in
    let abs_offset = mapoffset +ℤ pos (a.bitoffset / 8) in
    record {
      bsize = a.bsize + bitlen;
      bitoffset = a.bitoffset + bitlen;
      starting_offset =
          if idxloop == 1 && subidxloop == 1 then some abs_offset else a.starting_offset;
      overflow =
          a.overflow
          || (leaves_int (pos (a.bsize + bitlen))
              || (leaves_int abs_offset || leaves_int (pos (a.bitoffset + bitlen))));
    }

-- `for (subidxloop = …; subidxloop <= subidx; subidxloop++)`, with `count` rounds left; `subidx` is
-- at most 255, so the counter does not wrap.
unfoldable pub entry_loop : SdoRead → ℕ → ℕ → ℤ → ℕ → ℕ → ℕ → Assign → Assign
entry_loop read slave idx mapoffset idxloop zero subidxloop a = a
entry_loop read slave idx mapoffset idxloop (suc count) subidxloop a =
    entry_loop read slave idx mapoffset idxloop count (subidxloop + 1)
      (map_entry read slave idx mapoffset idxloop subidxloop a)

-- The body of the outer loop.
unfoldable pub assign_pdo : SdoRead → ℕ → ℕ → ℤ → ℕ → Assign → Assign
assign_pdo read slave pdo_assign mapoffset idxloop a =
    let idx = (read slave pdo_assign (idxloop % 256)).1 % 65536 in
    let subidx = (read slave idx 0).1 % 256 in
    if ltb 0 idx then entry_loop read slave idx mapoffset idxloop subidx 1 a else a

-- `for (idxloop = …; idxloop <= nidx; idxloop++)` on a `uint16` counter, which wraps. `none` means
-- that the fuel ran out.
unfoldable pub assign_loop : ℕ → SdoRead → ℕ → ℕ → ℤ → ℕ → ℕ → Assign → Option Assign
assign_loop zero read slave pdo_assign mapoffset nidx idxloop a = none
assign_loop (suc fuel) read slave pdo_assign mapoffset nidx idxloop a =
    let rest =
      assign_loop fuel read slave pdo_assign mapoffset nidx ((idxloop + 1) % 65536)
        (assign_pdo read slave pdo_assign mapoffset idxloop a) in
    if leb idxloop nidx then rest else some a

-- What the loops give back, unless a sum has overflowed.
abbrev pub assigned : Assign → Option (ℕ × Option ℤ)
assigned a = if a.overflow then none else some (a.bsize, a.starting_offset)

-- `si_PDOassign`: the result and `starting_offset` afterwards. `none` means that the fuel ran out,
-- and `some none` that a sum has overflowed.
unfoldable pub si_pdo_assign :
    ℕ → SdoRead → ℕ → ℕ → ℤ → ℕ → Option ℤ → Option (Option (ℕ × Option ℤ))
si_pdo_assign fuel read slave pdo_assign mapoffset bitoffset starting_offset =
    let (wkc, value) = read slave pdo_assign 0 in
    let rdat = value % 65536 in
    let start : Assign = record {
      bsize = 0;
      bitoffset = bitoffset;
      starting_offset = starting_offset;
      overflow = false;
    } in
    let mapped : Option (Option (ℕ × Option ℤ)) = do
      a ← assign_loop fuel read slave pdo_assign mapoffset rdat 1 start
      some (assigned a)
    in if is_positive wkc && ltb 0 rdat then mapped else some (some (0, starting_offset))

-- SOEM's constants, and where a slave's data lies in `IOmap`.
pub record Mapped : Type 0 where
  pub ect_sdo_smcommtype : ℕ
  pub ect_sdo_pdoassign : ℕ
  pub ec_maxsm : ℕ
  pub outputs : ℕ → ℤ
  pub inputs : ℕ → ℤ

pub record Offsets : Type 0 where
  pub smt_bug_add : ℕ
  pub outputs_bo : ℕ
  pub inputs_bo : ℕ
  pub rx_offset : Option ℤ
  pub tx_offset : Option ℤ

abbrev assign_index : Mapped → ℕ → ℕ
assign_index m ism = (m.ect_sdo_pdoassign + ism) % 65536

-- The sum is that of `bitoffset` in the call, which has not overflowed.
unfoldable pub map_outputs : ℕ → SdoRead → Mapped → ℕ → ℕ → Offsets → Option Offsets
map_outputs fuel read m slave ism o = do
  ended ←
      si_pdo_assign fuel read slave (assign_index m ism) (m.outputs slave) o.outputs_bo o.rx_offset
  (tsize, rx) ← ended
  some (record o { outputs_bo = o.outputs_bo + tsize; rx_offset = rx })

unfoldable pub map_inputs : ℕ → SdoRead → Mapped → ℕ → ℕ → Offsets → Option Offsets
map_inputs fuel read m slave ism o = do
  ended ←
      si_pdo_assign fuel read slave (assign_index m ism) (m.inputs slave) o.inputs_bo o.tx_offset
  (tsize, tx) ← ended
  some (record o { inputs_bo = o.inputs_bo + tsize; tx_offset = tx })

-- The two `if`s on the sync manager's type, after the correction.
unfoldable pub map_type : ℕ → SdoRead → Mapped → ℕ → ℕ → ℕ → Offsets → Option Offsets
map_type fuel read m slave ism tsm o =
    if tsm == 3
    then map_outputs fuel read m slave ism o
    else if tsm == 4
    then map_inputs fuel read m slave ism o
    else some o

-- One sync manager.
unfoldable pub map_sm : ℕ → SdoRead → Mapped → ℕ → ℕ → Offsets → Option Offsets
map_sm fuel read m slave ism o =
    let (wkc, value) = read slave m.ect_sdo_smcommtype (ism + 1) in
    let tsm = value % 256 in
    let bug = if ism == 2 && tsm == 2 then 1 else o.smt_bug_add in
    let corrected = if tsm == 0 then 0 else (tsm + bug) % 256 in
    let mapped = map_type fuel read m slave ism corrected (record o { smt_bug_add = bug }) in
    if is_positive wkc then mapped else some o

-- `for (iSM = …; iSM <= nSM; iSM++)`, with `count` rounds left.
unfoldable pub sm_loop : ℕ → SdoRead → Mapped → ℕ → ℕ → ℕ → Offsets → Option Offsets
sm_loop fuel read m slave zero ism o = some o
sm_loop fuel read m slave (suc count) ism o = do
  o' ← map_sm fuel read m slave ism o
  sm_loop fuel read m slave count (ism + 1) o'

abbrev pub no_offsets : Offsets
no_offsets = record {
  smt_bug_add = 0;
  outputs_bo = 0;
  inputs_bo = 0;
  rx_offset = none;
  tx_offset = none;
}

-- `si_map_sdo` on offsets that are not set; its result tells whether any bits were found.
unfoldable pub si_map_sdo : ℕ → SdoRead → Mapped → ℕ → Option (Bool × Offsets)
si_map_sdo fuel read m slave =
    let (wkc, value) = read slave m.ect_sdo_smcommtype 0 in
    let nsm = value % 256 in
    let last = if ltb m.ec_maxsm (nsm - 1) then m.ec_maxsm else nsm - 1 in
    let mapped : Option (Bool × Offsets) = do
      o ← sm_loop fuel read m slave (last - 1) 2 no_offsets
      some (ltb 0 o.outputs_bo || ltb 0 o.inputs_bo, o)
    in if is_positive wkc && ltb 2 nsm then mapped else some (false, no_offsets)
