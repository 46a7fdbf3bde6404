-- ===== src/Slave/Battery/Bits/Flags.antt =====
-- What the flags shown for the battery's error and warning words say about the words.
use kddv.Base.{ℕ, ◌/◌, ◌^◌, ◌%◌, List, [], ◌∷◌, ◌≡◌, ap, bit_and-pow_shift, map}
use kddv.Text.{Text, text, str_eq, to_string}
use kddv.Slave.Battery.Bits.{
  flag, error_values, warning_values, parse_bits, error_names, warning_names,
}

-- Digit `k` of a word, as text.
abbrev digit : ℕ → ℕ → Text
digit w k = to_string (w / 2 ^ k % 2)

flag-digit : (k w : ℕ) → flag w (2 ^ k) k ≡ digit w k
unfolding flag
flag-digit k w = ap to_string (bit_and-pow_shift k w)

-- For the error word the values are its digits 0 to 6, and for the warning word digits 0 and 1, in
-- that order, one for each name.
pub parse_bits_words :
    (w : ℕ) (out : List Text × List Text)
    → (parse_bits w (text "error") out
        ≡ (error_names, map (digit w) (0 ∷ 1 ∷ 2 ∷ 3 ∷ 4 ∷ 5 ∷ 6 ∷ [])))
      × (parse_bits w (text "warning") out ≡ (warning_names, map (digit w) (0 ∷ 1 ∷ [])))
unfolding parse_bits str_eq error_values warning_values
parse_bits_words w out = (
  λ i. (
    error_names,
    flag-digit 0 w i
        ∷ flag-digit 1 w i
        ∷ flag-digit 2 w i
        ∷ flag-digit 3 w i
        ∷ flag-digit 4 w i
        ∷ flag-digit 5 w i
        ∷ flag-digit 6 w i
        ∷ [],
  ),
  λ i. (warning_names, flag-digit 0 w i ∷ flag-digit 1 w i ∷ []),
)
