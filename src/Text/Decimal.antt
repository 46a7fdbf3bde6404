-- ===== src/Text/Decimal.antt =====
-- Decimal text: `stoul` reads back what `to_string` wrote.
use mathlib.Core.Logic.{dif_pos, dif_neg}
use native.Mathlib.Bridge.{le_prop}
use kddv.Base.{
  ℕ, ◌+◌, ◌/◌, ◌%◌, ◌^◌, ◌<◌, ◌≡◌, refl, sym, ap, ◌∙◌, true, some, [], ◌∷◌, ◌++◌, All, All-append,
  Acc, arith, append_assoc, append-nil, lt_wf, dec_lt,
}
use kddv.Text.{Text, to_string, to_string_acc, scan_digits, stoul, is_digit, tenth_lt}

scan_step : (n : ℕ) (s : Text) → scan_digits (n / 10) ((b'0' + n % 10) ∷ s) ≡ scan_digits n s
unfolding scan_digits
scan_step n s = ground arith

scan_digits-to_string_acc :
    (n : ℕ) (w : Acc ◌<◌ n) (s : Text) → scan_digits 0 (to_string_acc n w ++ s) ≡ scan_digits n s
unfolding to_string_acc
scan_digits-to_string_acc n (Acc.intro _ smaller) s = elim (dec_lt 9 n) [
  | yes h ↦ rw (dif_pos _ le_prop h) (
      rw append_assoc (
        scan_digits-to_string_acc (n / 10) (smaller (n / 10) (tenth_lt n h)) ((b'0' + n % 10) ∷ s)
        ∙ scan_step n s))
  | no h ↦ rw (dif_neg _ h) (unfold scan_digits in ground arith)
]

-- Every character of a number's text is a digit.
to_string_acc-digits : (n : ℕ) (w : Acc ◌<◌ n) → All (λ c. is_digit c ≡ true) (to_string_acc n w)
unfolding to_string_acc
to_string_acc-digits n (Acc.intro _ smaller) = elim (dec_lt 9 n) [
  | yes h ↦ rw (dif_pos _ le_prop h) (
      All-append (λ c. is_digit c ≡ true) (to_string_acc (n / 10) (smaller (n / 10) (tenth_lt n h)))
        ((b'0' + n % 10) ∷ []) (to_string_acc-digits (n / 10) (smaller (n / 10) (tenth_lt n h)))
        (ground arith, tt))
  | no h ↦ rw (dif_neg _ h) (ground arith, tt)
]

pub to_string-digits : (n : ℕ) → All (λ c. is_digit c ≡ true) (to_string n)
unfolding to_string
to_string-digits n = to_string_acc-digits n (lt_wf.apply n)

to_string_acc-cons : (n : ℕ) (w : Acc ◌<◌ n) → (c : ℕ) × (s : Text) × (to_string_acc n w ≡ c ∷ s)
unfolding to_string_acc
to_string_acc-cons n (Acc.intro _ smaller) = elim (dec_lt 9 n) [
  | yes h ↦
      let (c, s, e) = to_string_acc-cons (n / 10) (smaller (n / 10) (tenth_lt n h)) in
      (c, s ++ ((b'0' + n % 10) ∷ []), rw (dif_pos _ le_prop h) (rw e))
  | no h ↦ (b'0' + n, [], rw (dif_neg _ h))
]

-- A number's text is not empty.
pub to_string-cons : (n : ℕ) → (c : ℕ) × (s : Text) × (to_string n ≡ c ∷ s)
unfolding to_string
to_string-cons n = to_string_acc-cons n (lt_wf.apply n)

stoul_digits :
    (n c : ℕ) (s : Text)
    → is_digit c ≡ true
    → scan_digits 0 (c ∷ s) ≡ n
    → n < 2 ^ 64
    → stoul (c ∷ s) ≡ some n
unfolding stoul
stoul_digits n c s d e h = ground arith

starts_with_digit :
    (t : Text) {c : ℕ} {s : Text} → t ≡ c ∷ s → All (λ c. is_digit c ≡ true) t → is_digit c ≡ true
starts_with_digit [] e h = cc
starts_with_digit (d ∷ t) e h = ground arith

pub scan_digits-to_string : (n : ℕ) → scan_digits 0 (to_string n) ≡ n
unfolding to_string
scan_digits-to_string n =
    ap (scan_digits 0) (sym (append-nil (to_string n)))
    ∙ scan_digits-to_string_acc n (lt_wf.apply n) []
    ∙ (unfold scan_digits in refl)

-- `std::stoul` gives back the number that `std::to_string` wrote, for any 64-bit value.
pub stoul-to_string : (n : ℕ) → n < 2 ^ 64 → stoul (to_string n) ≡ some n
stoul-to_string n h =
    let (c, s, e) = to_string-cons n in
    rw e (
      stoul_digits n c s (starts_with_digit (to_string n) e (to_string-digits n))
        (ap (scan_digits 0) (sym e) ∙ scan_digits-to_string n) h)

-- A number's text in front of another text.
pub scan_digits-to_string_front :
    (n : ℕ) (s : Text) → scan_digits 0 (to_string n ++ s) ≡ scan_digits n s
unfolding to_string
scan_digits-to_string_front n s = scan_digits-to_string_acc n (lt_wf.apply n) s
