-- ===== src/Base/Bits.antt =====
-- A mask of one bit, by the digit recursion that the native `bit_and` stands for.
use Prim.Native.Nat.{
  ℕ, zero, suc, ◌+◌, ◌*◌, ◌/◌, ◌%◌, ◌^◌, ◌≤◌, ◌<◌, min, bit_and, digits, bit_and-bitwise,
}
use mathlib.Core.Path.{◌≡◌, refl, sym, ◌∙◌, ap}
use native.Mathlib.Omega.{arith}
use native.Mathlib.Nat.{pow-suc, div-div-eq-div-mul, mul-div_cancel}

-- The recursion on its fuel, the two operands first.
abbrev mask_run : (value mask budget : ℕ) → ℕ
mask_run value mask budget = digits (λ _. 0) min budget value mask

-- Any budget from the value on gives the same digits.
mask_run-eq :
    (value mask small large : ℕ)
    → value ≤ small
    → small ≤ large
    → mask_run value mask small ≡ mask_run value mask large
mask_run-eq zero mask zero zero _ _ = refl
mask_run-eq zero mask zero (suc _) _ _ = refl
mask_run-eq zero mask (suc _) (suc _) _ _ = refl
mask_run-eq value mask (suc _) zero _ above = absurd (omega (arith, above))
mask_run-eq (suc value) mask zero large fits _ = absurd (omega (arith, fits))
mask_run-eq (suc value) mask (suc small) (suc large) fits above =
    let rest = mask_run-eq (suc value / 2) (mask / 2) small large (omega arith) (omega arith) in
    ap (λ r. r * 2 + min (suc value % 2) (mask % 2)) rest

-- One step of the recursion, the lowest digit split off.
pub bit_and_step :
    (value mask : ℕ)
    → bit_and value mask ≡ bit_and (value / 2) (mask / 2) * 2 + min (value % 2) (mask % 2)
bit_and_step zero mask =
    let none_set = λ (m : ℕ). bit_and-bitwise 0 m in
    omega (arith, none_set mask, none_set (mask / 2))
bit_and_step (suc value) mask =
    bit_and-bitwise (suc value) mask
    ∙ ap (λ r. r * 2 + min (suc value % 2) (mask % 2))
        (sym (
            mask_run-eq (suc value / 2) (mask / 2) (suc value / 2) value (omega arith)
              (omega arith))
          ∙ sym (bit_and-bitwise (suc value / 2) (mask / 2)))

nothing_masked : (budget value : ℕ) → value ≤ budget → bit_and value 0 ≡ 0
nothing_masked budget zero _ = refl
nothing_masked zero (suc _) fits = absurd (omega (arith, fits))
nothing_masked (suc budget) (suc value) fits =
    let half = nothing_masked budget (suc value / 2) (omega arith) in
    bit_and_step (suc value) 0 ∙ omega (arith, half)

pub bit_and-zero : (value : ℕ) → bit_and value 0 ≡ 0
bit_and-zero value = nothing_masked value value (omega arith)

half_pow : (k : ℕ) → (2 ^ suc k / 2 ≡ 2 ^ k) × (2 ^ suc k % 2 ≡ 0)
half_pow k = (omega (arith, pow-suc 2 k), omega (arith, pow-suc 2 k))

div-pow-suc : (k x : ℕ) → x / 2 / 2 ^ k ≡ x / 2 ^ suc k
div-pow-suc k x = div-div-eq-div-mul x 2 (2 ^ k) ∙ ap (λ m. x / m) (omega (arith, pow-suc 2 k))

-- `x & (1 << k)` is the digit of weight 2 ^ k, in its place.
pub bit_and-pow : (k x : ℕ) → bit_and x (2 ^ k) ≡ x / 2 ^ k % 2 * 2 ^ k
bit_and-pow zero x = omega (arith, bit_and_step x 1, bit_and-zero (x / 2))
bit_and-pow (suc k) x =
    bit_and_step x (2 ^ suc k)
    ∙ rw ((half_pow k).0, (half_pow k).1, bit_and-pow k (x / 2), div-pow-suc k x)
        (omega (arith, ap (λ (m : ℕ). x / 2 ^ suc k % 2 * m) (pow-suc 2 k)))

-- So shifting it down gives the digit.
pub bit_and-pow_shift : (k x : ℕ) → bit_and x (2 ^ k) / 2 ^ k ≡ x / 2 ^ k % 2
bit_and-pow_shift k x = rw (bit_and-pow k x) (mul-div_cancel (x / 2 ^ k % 2) (pos_pow k))
  where
    pos_pow : (k : ℕ) → 0 < 2 ^ k
    pos_pow zero = omega arith
    pos_pow (suc k) = omega (arith, pow-suc 2 k, pos_pow k)

-- A mask of two neighbouring ones, `0x3 << 2`.
pub bit_and_twelve : (x : ℕ) → bit_and x 12 ≡ x / 4 % 4 * 4
bit_and_twelve x = omega (
  arith,
  bit_and_step x 12,
  bit_and_step (x / 2) 6,
  bit_and_step (x / 2 / 2) 3,
  bit_and_step (x / 2 / 2 / 2) 1,
  bit_and-zero (x / 2 / 2 / 2 / 2),
)

bit_and_odd : (x m : ℕ) → bit_and x (2 * m + 1) ≡ bit_and (x / 2) m * 2 + x % 2
bit_and_odd x m = bit_and_step x (2 * m + 1) ∙ rw (half_odd m) (omega arith)
  where
    half_odd : (m : ℕ) → (2 * m + 1) / 2 ≡ m
    half_odd m = omega arith

sixteenth : (x : ℕ) → x / 2 / 2 / 2 / 2 ≡ x / 16
sixteenth x = omega arith

-- A hexadecimal digit `f` at the end of a mask.
bit_and_nibble :
    (x m : ℕ)
    → bit_and x (2 * (2 * (2 * (2 * m + 1) + 1) + 1) + 1) ≡ bit_and (x / 16) m * 16 + x % 16
bit_and_nibble x m = omega (
  arith,
  bit_and_odd x (2 * (2 * (2 * m + 1) + 1) + 1),
  bit_and_odd (x / 2) (2 * (2 * m + 1) + 1),
  bit_and_odd (x / 2 / 2) (2 * m + 1),
  bit_and_odd (x / 2 / 2 / 2) m,
  ap (λ (y : ℕ). bit_and y m) (sixteenth x),
)

-- A mask of twelve ones, `0x0fff`.
pub bit_and_0fff : (x : ℕ) → bit_and x 0x0fff ≡ x % 4096
bit_and_0fff x = omega (
  arith,
  bit_and_nibble x 255,
  bit_and_nibble (x / 16) 15,
  bit_and_nibble (x / 16 / 16) 0,
  bit_and-zero (x / 16 / 16 / 16),
)
