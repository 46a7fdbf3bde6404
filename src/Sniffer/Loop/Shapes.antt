-- ===== src/Sniffer/Loop/Shapes.antt =====
-- What the bounds of a slave depend on, and which copies of src/packet_sniffer.cpp are in range.
use kddv.Base.{
  ℕ, ◌+◌, ◌≡◌, refl, sym, ◌∙◌, ◌⊎◌, inl, inr, Bool, true, false, ◌&&◌, Bool-cases, leb, ℤ, pos,
  negsuc, ◌+ℤ◌, Option, none, some, some-injective, Option-cases, ◌>>=◌, >>=-eq-some, List, [], ◌∷◌,
  map, length, drop, length-drop, arith,
}
use kddv.Memory.{memcpy, pointer}
use kddv.Slave.{
  Device, EthercatSlave, SlaveInfo, kelo_drive, robile_battery, kelo_bms, copy_device, copy_data,
}
use kddv.Slave.Drive
use kddv.Slave.Battery
use kddv.Slave.Bms
use kddv.Sniffer.{copy_slaves}

abbrev pub is_some {ℓ} : {A : Type ℓ} → Option A → Bool
is_some none = false
is_some (some a) = true

-- `size` bytes at `offset` lie in the buffer.
abbrev pub lies_in : List ℕ → ℤ → ℕ → Bool
lies_in buffer (pos n) size = leb (n + size) (length buffer)
lies_in buffer (negsuc n) size = false

-- `sizeof` of the two structs of a slave's class.
abbrev pub rx_length : Device → ℕ
rx_length (kelo_drive s) = 36
rx_length (robile_battery s) = 12
rx_length (kelo_bms s) = 20

abbrev pub tx_length : Device → ℕ
tx_length (kelo_drive s) = 172
tx_length (robile_battery s) = 68
tx_length (kelo_bms s) = 112

-- What the bounds of a slave depend on.
abbrev pub shape : EthercatSlave → SlaveInfo × ℕ × ℕ
shape s = (s.slave_info, rx_length s.device, tx_length s.device)

-- Both structs of a slave, at its two offsets behind the header.
abbrev pub shape_in : ℕ → List ℕ → SlaveInfo × ℕ × ℕ → Bool
shape_in start_offset buffer (info, rx, tx) =
    lies_in buffer (pos start_offset +ℤ info.rx_start_offset) rx
    && lies_in buffer (pos start_offset +ℤ info.tx_start_offset) tx

abbrev pub all_of {ℓ} : {A : Type ℓ} → (A → Bool) → List A → Bool
all_of test [] = true
all_of test (x ∷ xs) = test x && all_of test xs

-- The rest of a loop is reached only behind its first round.
is_some-round :
    {A B : Type 0} (m n : Option A) (f : A → A → Option B) (rest : Option (List B))
    → is_some (do a ← m; b ← n; s ← f a b; others ← rest; some (s ∷ others))
      ≡ (is_some (do a ← m; b ← n; f a b) && is_some rest)
is_some-round none n f rest = refl
is_some-round (some a) none f rest = refl
is_some-round (some a) (some b) f rest = elim (Option-cases (f a b)) [
  | inl e ↦ rw e refl
  | inr (s, e) ↦ elim (Option-cases rest) [
    | inl e' ↦ rw (e, e') refl
    | inr (others, e') ↦ rw (e, e') refl
  ]
]

copy_device-lengths :
    (d d' : Device) (outputs inputs : List ℕ)
    → copy_device d outputs inputs ≡ some d'
    → (rx_length d' ≡ rx_length d) × (tx_length d' ≡ tx_length d)
unfolding copy_device
copy_device-lengths (kelo_drive s) d' outputs inputs h =
    let (s', _, made) = >>=-eq-some (Drive.copy_data s outputs inputs) _ h in
    rw (sym (some-injective _ _ made)) (refl, refl)
copy_device-lengths (robile_battery s) d' outputs inputs h =
    let (s', _, made) = >>=-eq-some (Battery.copy_data s outputs inputs) _ h in
    rw (sym (some-injective _ _ made)) (refl, refl)
copy_device-lengths (kelo_bms s) d' outputs inputs h =
    let (s', _, made) = >>=-eq-some (Bms.copy_data s outputs inputs) _ h in
    rw (sym (some-injective _ _ made)) (refl, refl)

-- `copyData` keeps the class and the slave information.
copy_data-shape :
    (s s' : EthercatSlave) (outputs inputs : List ℕ)
    → copy_data s outputs inputs ≡ some s'
    → shape s' ≡ shape s
unfolding copy_data
copy_data-shape s s' outputs inputs h =
    let (d', done, made) = >>=-eq-some (copy_device s.device outputs inputs) _ h in
    let (rx_same, tx_same) = copy_device-lengths s.device d' outputs inputs done in
    rw (sym (some-injective _ _ made), rx_same, tx_same) refl

copy_device-reads :
    (d : Device) (outputs inputs : List ℕ)
    → is_some (copy_device d outputs inputs)
      ≡ (leb (rx_length d) (length outputs) && leb (tx_length d) (length inputs))
unfolding copy_device Drive.copy_data Battery.copy_data Bms.copy_data memcpy
copy_device-reads (kelo_drive s) outputs inputs = ground arith
copy_device-reads (robile_battery s) outputs inputs = ground arith
copy_device-reads (kelo_bms s) outputs inputs = ground arith

copy_data-reads :
    (s : EthercatSlave) (outputs inputs : List ℕ)
    → is_some (copy_data s outputs inputs)
      ≡ (leb (rx_length s.device) (length outputs) && leb (tx_length s.device) (length inputs))
unfolding copy_data
copy_data-reads s outputs inputs = ground (arith, copy_device-reads s.device outputs inputs)

-- A pointer into the buffer, behind which a struct lies or does not; or no pointer.
pointer_cases :
    (buffer : List ℕ) (offset : ℤ)
    → ((at : List ℕ) × (pointer buffer offset ≡ some at)
        × ((size : ℕ) → leb size (length at) ≡ lies_in buffer offset size))
      ⊎ ((pointer buffer offset ≡ none) × ((size : ℕ) → lies_in buffer offset size ≡ false))
unfolding pointer
pointer_cases buffer (negsuc n) = inr (refl, λ size. refl)
pointer_cases buffer (pos n) = elim (Bool-cases (leb n (length buffer))) [
  | inl fits ↦ inl (drop n buffer, rw fits refl, λ size. ground (arith, length-drop {0} n buffer))
  | inr out ↦ inr (rw out refl, λ size. ground arith)
]

slave_reads :
    (start_offset : ℕ) (buffer : List ℕ) (s : EthercatSlave)
    → is_some (do
      rx_data ← pointer buffer (pos start_offset +ℤ s.slave_info.rx_start_offset)
      tx_data ← pointer buffer (pos start_offset +ℤ s.slave_info.tx_start_offset)
      copy_data s rx_data tx_data)
      ≡ shape_in start_offset buffer (shape s)
slave_reads start_offset buffer s =
    elim (pointer_cases buffer (pos start_offset +ℤ s.slave_info.rx_start_offset)) [
      | inr (out, off) ↦ rw (out, off (rx_length s.device)) refl
      | inl (outputs, rx_at, rx_fits) ↦
          elim (pointer_cases buffer (pos start_offset +ℤ s.slave_info.tx_start_offset)) [
            | inr (out, off) ↦ rw (rx_at, out, off (tx_length s.device)) (ground arith)
            | inl (inputs, tx_at, tx_fits) ↦
                rw
                  (
                    rx_at,
                    tx_at,
                    copy_data-reads s outputs inputs,
                    rx_fits (rx_length s.device),
                    tx_fits (tx_length s.device),
                  )
                  refl
          ]
    ]

pub copy_slaves-reads :
    (start_offset : ℕ) (buffer : List ℕ) (slaves : List EthercatSlave)
    → is_some (copy_slaves start_offset buffer slaves)
      ≡ all_of (shape_in start_offset buffer) (map shape slaves)
unfolding copy_slaves
copy_slaves-reads start_offset buffer [] = refl
copy_slaves-reads start_offset buffer (s ∷ rest) =
    is_some-round (pointer buffer (pos start_offset +ℤ s.slave_info.rx_start_offset))
      (pointer buffer (pos start_offset +ℤ s.slave_info.tx_start_offset)) (copy_data s)
      (copy_slaves start_offset buffer rest)
    ∙ rw (slave_reads start_offset buffer s, copy_slaves-reads start_offset buffer rest) refl

pub copy_slaves-shapes :
    (start_offset : ℕ) (buffer : List ℕ) (slaves : List EthercatSlave)
    {slaves' : List EthercatSlave}
    → copy_slaves start_offset buffer slaves ≡ some slaves'
    → map shape slaves' ≡ map shape slaves
unfolding copy_slaves
copy_slaves-shapes start_offset buffer [] h = rw (sym (some-injective _ _ h)) refl
copy_slaves-shapes start_offset buffer (s ∷ rest) h =
    let (outputs, _, h₁) =
      >>=-eq-some (pointer buffer (pos start_offset +ℤ s.slave_info.rx_start_offset)) _ h in
    let (inputs, _, h₂) =
      >>=-eq-some (pointer buffer (pos start_offset +ℤ s.slave_info.tx_start_offset)) _ h₁ in
    let (s', copied, h₃) = >>=-eq-some (copy_data s outputs inputs) _ h₂ in
    let (rest', others, made) = >>=-eq-some (copy_slaves start_offset buffer rest) _ h₃ in
    rw
      (
        sym (some-injective _ _ made),
        copy_data-shape s s' outputs inputs copied,
        copy_slaves-shapes start_offset buffer rest others,
      )
      refl
