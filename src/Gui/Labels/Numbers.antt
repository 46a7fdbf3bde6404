-- ===== src/Gui/Labels/Numbers.antt =====
-- The values whose bits can be parsed are the decimal texts of 16-bit numbers.
use kddv.Base.{
  ℕ, ◌≡◌, refl, ◌^◌, ◌<◌, ◌⊎◌, inl, inr, Bool, true, false, not, ◌&&◌, List, [], ◌∷◌, length, arith,
}
use kddv.Text.{Text, str_eq, to_string}
use kddv.Scalar.{scalar_to_string}
use kddv.Slave.{
  Device, kelo_drive, robile_battery, kelo_bms, get_rx_variables, get_tx_variables, get_rx_values,
  get_tx_values, are_bits_parsable,
}
use kddv.Slave.Image.{Fits}

-- A value of a variable without bits, or a number.
abbrev pub Readable : Device → Text → Text → Type 0
Readable d variable value =
    (are_bits_parsable d variable ≡ false) ⊎ ((n : ℕ) × (value ≡ to_string n) × (n < 2 ^ 16))

pub data AllReadable (d : Device) : List Text → List Text → Type 0 where
  last : AllReadable d [] []
  and_then :
      {v x : Text} {variables values : List Text}
      → Readable d v x
      → AllReadable d variables values
      → AllReadable d (v ∷ variables) (x ∷ values)

no_bits : Device → List Text → Bool
no_bits d [] = true
no_bits d (v ∷ variables) = not (are_bits_parsable d v) && no_bits d variables

without_bits :
    (d : Device) (variables values : List Text)
    → no_bits d variables ≡ true
    → length values ≡ length variables
    → AllReadable d variables values
unfolding no_bits
without_bits d [] [] h e = last
without_bits d [] (x ∷ values) h e = absurd (omega (arith, e))
without_bits d (v ∷ variables) [] h e = absurd (omega (arith, e))
without_bits d (v ∷ variables) (x ∷ values) h e =
    and_then (inl (ground arith))
      (without_bits d variables values (ground arith) (omega (arith, e)))

pub AllReadable-rx : (d : Device) → Fits d → AllReadable d (get_rx_variables d) (get_rx_values d)
unfolding get_rx_variables get_rx_values are_bits_parsable scalar_to_string str_eq no_bits
AllReadable-rx (kelo_drive s) (h, _) =
    and_then (inr (s.rx.command1, refl, h.command1_fits))
      (without_bits (kelo_drive s) _ _ refl refl)
AllReadable-rx (robile_battery s) h = without_bits (robile_battery s) _ _ refl refl
AllReadable-rx (kelo_bms s) h = without_bits (kelo_bms s) _ _ refl refl

pub AllReadable-tx : (d : Device) → Fits d → AllReadable d (get_tx_variables d) (get_tx_values d)
unfolding get_tx_variables get_tx_values are_bits_parsable scalar_to_string str_eq no_bits
AllReadable-tx (kelo_drive s) (_, h) =
    and_then (inr (s.tx.status1, refl, h.status1_fits)) (without_bits (kelo_drive s) _ _ refl refl)
AllReadable-tx (robile_battery s) (_, h) = and_then (inl refl) (
    and_then (inl refl) (
      and_then (inr (s.tx.error, refl, h.error_fits)) (
        and_then (inr (s.tx.warning, refl, h.warning_fits))
          (without_bits (robile_battery s) _ _ refl refl))))
AllReadable-tx (kelo_bms s) h = without_bits (kelo_bms s) _ _ refl refl
