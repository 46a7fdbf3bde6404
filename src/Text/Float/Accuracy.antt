-- ===== src/Text/Float/Accuracy.antt =====
-- How near the text of a float is to the float.
use kddv.Base.{
  ℕ, zero, suc, ◌+◌, ◌*◌, ◌/◌, ◌%◌, ◌^◌, ◌<◌, ◌≤◌, ◌≡◌, ◌≢◌, refl, false, sym, ap, ◌∙◌, [], ◌∷◌,
  ◌++◌, arith, ◌==◌, if◌then◌else◌, length, length-append, append_assoc, append-nil,
}
use native.Mathlib.Nat.{pow-suc}
use kddv.Text.{Text, text, to_string, scan_digits}
use kddv.Text.Decimal.{scan_digits-to_string_front}
use kddv.Text.Float.{exponent, sign_bit, magnitude, millionths, padded, fixed, float_to_string}

-- Within half a millionth, from both sides.
millionths_near :
    (m : ℕ)
    → (2 * (millionths m * 2 ^ 149) ≤ 2 * (m * 10 ^ 6) + 2 ^ 149)
      × (2 * (m * 10 ^ 6) ≤ 2 * (millionths m * 2 ^ 149) + 2 ^ 149)
unfolding millionths
millionths_near m = ground arith

length-padded : (k n : ℕ) → length (padded k n) ≡ k
unfolding padded
length-padded zero n = refl
length-padded (suc k) n =
    omega (
      arith,
      length-append {0} (padded k (n / 10)) ((b'0' + n % 10) ∷ []),
      length-padded k (n / 10),
    )

digit_step :
    (b d : ℕ) (s : Text) → d < 10 → scan_digits b ((b'0' + d) ∷ s) ≡ scan_digits (b * 10 + d) s
unfolding scan_digits
digit_step b d s h = ground arith

-- The digits of `n` behind those of `a`.
scan_digits-padded :
    (k a n : ℕ) (s : Text)
    → n < 10 ^ k
    → scan_digits a (padded k n ++ s) ≡ scan_digits (a * 10 ^ k + n) s
unfolding padded
scan_digits-padded zero a n s h = ap (λ x. scan_digits x s) (omega arith)
scan_digits-padded (suc k) a n s h = rw append_assoc (
    scan_digits-padded k a (n / 10) ((b'0' + n % 10) ∷ s) (omega arith)
    ∙ digit_step (a * 10 ^ k + n / 10) (n % 10) s (omega arith)
    ∙ ap (λ x. scan_digits x s) (omega (arith, ap (λ (t : ℕ). a * t) (pow-suc 10 k))))

-- Both parts of the text, read as one number, give back the number of millionths.
fixed_value : (q : ℕ) → scan_digits 0 (to_string (q / 10 ^ 6) ++ padded 6 (q % 10 ^ 6)) ≡ q
fixed_value q =
    scan_digits-to_string_front (q / 10 ^ 6) (padded 6 (q % 10 ^ 6))
    ∙ ap (scan_digits (q / 10 ^ 6)) (sym (append-nil (padded 6 (q % 10 ^ 6))))
    ∙ scan_digits-padded 6 (q / 10 ^ 6) (q % 10 ^ 6) [] (omega arith)
    ∙ (unfold scan_digits in omega arith)

finite_text :
    (w : ℕ)
    → exponent w ≢ 255
    → float_to_string w
      ≡ (if sign_bit w == 0 then [] else text "-") ++ fixed (millionths (magnitude w))
unfolding float_to_string
finite_text w h = rw (float_to_string, not_special) refl
  where
    not_special : (exponent w == 255) ≡ false
    not_special = ground arith

-- The text of a finite float is its sign, digits, a point and six digits; all the digits, read
-- as one number of millionths, are within half a millionth of the float's magnitude.
pub float_to_string_near :
    (w : ℕ)
    → exponent w ≢ 255
    → (whole : Text) × (part : Text) × (float_to_string w
        ≡ (if sign_bit w == 0 then [] else text "-") ++ (whole ++ (b'.' ∷ part)))
      × (length part ≡ 6)
      × (2 * (scan_digits 0 (whole ++ part) * 2 ^ 149) ≤ 2 * (magnitude w * 10 ^ 6) + 2 ^ 149)
      × (2 * (magnitude w * 10 ^ 6) ≤ 2 * (scan_digits 0 (whole ++ part) * 2 ^ 149) + 2 ^ 149)
float_to_string_near w h =
    let q = millionths (magnitude w) in
    (
      to_string (q / 10 ^ 6),
      padded 6 (q % 10 ^ 6),
      (unfold fixed in finite_text w h),
      length-padded 6 (q % 10 ^ 6),
      rw (fixed_value q) (millionths_near (magnitude w)).0,
      rw (fixed_value q) (millionths_near (magnitude w)).1,
    )
