-- ===== src/Text/Float.antt =====
-- `std::to_string(float)`: the value as `printf` writes it under `%f`. A float is its IEEE 754
-- bit pattern, a number below 2 ^ 32.
pub mod Accuracy
use kddv.Base.{
  ℕ, zero, suc, ◌+◌, ◌-◌, ◌*◌, ◌/◌, ◌%◌, ◌^◌, ◌≡◌, refl, [], ◌∷◌, ◌++◌, ltb, ◌==◌, if◌then◌else◌,
  ◌&&◌,
}
use kddv.Text.{Text, text, to_string}

abbrev pub sign_bit : ℕ → ℕ
sign_bit w = w / 2 ^ 31

abbrev pub exponent : ℕ → ℕ
exponent w = w / 2 ^ 23 % 2 ^ 8

abbrev pub fraction : ℕ → ℕ
fraction w = w % 2 ^ 23

-- The magnitude of a finite float, in units of 2 ^ -149.
unfoldable pub magnitude : ℕ → ℕ
magnitude w = if exponent w == 0 then fraction w else (2 ^ 23 + fraction w) * 2 ^ (exponent w - 1)

-- The magnitude in millionths, rounded to the nearest one, and to the even one at a tie.
unfoldable pub millionths : ℕ → ℕ
millionths m =
    let q = m * 10 ^ 6 / 2 ^ 149 in
    let r = m * 10 ^ 6 % 2 ^ 149 in
    if ltb (2 * r) (2 ^ 149) then q else if r * 2 == 2 ^ 149 && q % 2 == 0 then q else q + 1

-- Exactly `k` decimal digits.
unfoldable pub padded : ℕ → ℕ → Text
padded zero n = []
padded (suc k) n = padded k (n / 10) ++ ((b'0' + n % 10) ∷ [])

abbrev minus : ℕ → Text
minus w = if sign_bit w == 0 then [] else b'-' ∷ []

unfoldable pub fixed : ℕ → Text
unfolding padded
fixed q = to_string (q / 10 ^ 6) ++ b'.' ∷ padded 6 (q % 10 ^ 6)

unfoldable pub float_to_string : ℕ → Text
unfolding magnitude millionths fixed
float_to_string w =
    if exponent w == 255
    then minus w ++ (if fraction w == 0 then text "inf" else text "nan")
    else minus w ++ fixed (millionths (magnitude w))

-- 9.81f is 0x411cf5c3
float_run : float_to_string 0x411cf5c3 ≡ text "9.810000"
unfolding float_to_string to_string
float_run = refl

negative_run : float_to_string 0xc0200000 ≡ text "-2.500000"
unfolding float_to_string to_string
negative_run = refl
