-- ===== src/Slave/Drive/Bits/Flags.antt =====
-- What the flags shown for a drive's command and status words say about the words.
use kddv.Base.{
  ℕ, zero, suc, ◌/◌, ◌*◌, ◌^◌, ◌%◌, ◌<◌, List, [], ◌∷◌, ◌++◌, ◌==◌, if◌then◌else◌, ◌≡◌, refl, ap,
  ◌∙◌, arith, bit_and-pow_shift, bit_and_twelve, map,
}
use kddv.Text.{Text, text, str_eq, to_string}
use kddv.Slave.Drive.Bits.{
  flag, mode, mode_values, command_values, status_values, parse_bits, command_names, status_names,
}

-- Digit `k` of a word, as text.
abbrev digit : ℕ → ℕ → Text
digit w k = to_string (w / 2 ^ k % 2)

-- `1` where `k` is `i`, and `0` elsewhere.
abbrev chosen : ℕ → ℕ → Text
chosen i k = if i == k then text "1" else text "0"

abbrev below_15 : List ℕ
below_15 = 0 ∷ 1 ∷ 2 ∷ 3 ∷ 4 ∷ 5 ∷ 6 ∷ 7 ∷ 8 ∷ 9 ∷ 10 ∷ 11 ∷ 12 ∷ 13 ∷ 14 ∷ []

flag-digit : (k w : ℕ) → flag w (2 ^ k) k ≡ digit w k
unfolding flag
flag-digit k w = ap to_string (bit_and-pow_shift k w)

mode_values-chosen : (i : ℕ) → i < 4 → mode_values (i * 4) ≡ map (chosen i) (0 ∷ 1 ∷ 2 ∷ 3 ∷ [])
unfolding mode_values
mode_values-chosen zero h = refl
mode_values-chosen (suc zero) h = refl
mode_values-chosen (suc (suc zero)) h = refl
mode_values-chosen (suc (suc (suc zero))) h = refl
mode_values-chosen (suc (suc (suc (suc i)))) h = absurd (omega arith)

status_values-digits : (w : ℕ) → status_values w ≡ map (digit w) below_15
unfolding status_values
status_values-digits w = λ i.
    flag-digit 0 w i
    ∷ flag-digit 1 w i
    ∷ flag-digit 2 w i
    ∷ flag-digit 3 w i
    ∷ flag-digit 4 w i
    ∷ flag-digit 5 w i
    ∷ flag-digit 6 w i
    ∷ flag-digit 7 w i
    ∷ flag-digit 8 w i
    ∷ flag-digit 9 w i
    ∷ flag-digit 10 w i
    ∷ flag-digit 11 w i
    ∷ flag-digit 12 w i
    ∷ flag-digit 13 w i
    ∷ flag-digit 14 w i
    ∷ []

mode_values-mode : (w : ℕ) → mode_values (mode w) ≡ map (chosen (w / 4 % 4)) (0 ∷ 1 ∷ 2 ∷ 3 ∷ [])
unfolding mode
mode_values-mode w =
    ap mode_values (bit_and_twelve w) ∙ mode_values-chosen (w / 4 % 4) (omega arith)

command_values-digits :
    (w : ℕ)
    → command_values w
      ≡ map (digit w) (0 ∷ 1 ∷ [])
        ++ (map (chosen (w / 4 % 4)) (0 ∷ 1 ∷ 2 ∷ 3 ∷ [])
            ++ map (digit w) (4 ∷ 5 ∷ 10 ∷ 11 ∷ 15 ∷ []))
unfolding command_values
command_values-digits w = λ i.
    flag-digit 0 w i
    ∷ flag-digit 1 w i
    ∷ (mode_values-mode w i
        ++ (flag-digit 4 w i
            ∷ flag-digit 5 w i
            ∷ flag-digit 10 w i
            ∷ flag-digit 11 w i
            ∷ flag-digit 15 w i
            ∷ []))

-- For the status word the values are its digits 0 to 14, in that order, one for each name.
pub parse_bits_status :
    (w : ℕ) (out : List Text × List Text)
    → parse_bits w (text "status1") out ≡ (status_names, map (digit w) below_15)
unfolding parse_bits str_eq
parse_bits_status w out = λ i. (status_names, status_values-digits w i)

-- For the command word the values are digits 0 and 1, then `1` for the mode in digits 2 and 3 and
-- `0` for the three others, then digits 4, 5, 10, 11 and 15.
pub parse_bits_command :
    (w : ℕ) (out : List Text × List Text)
    → parse_bits w (text "command1") out ≡ (
      command_names,
      map (digit w) (0 ∷ 1 ∷ [])
          ++ (map (chosen (w / 4 % 4)) (0 ∷ 1 ∷ 2 ∷ 3 ∷ [])
              ++ map (digit w) (4 ∷ 5 ∷ 10 ∷ 11 ∷ 15 ∷ [])),
    )
unfolding parse_bits str_eq
parse_bits_command w out = λ i. (command_names, command_values-digits w i)
