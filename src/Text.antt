-- ===== src/Text.antt =====
-- `std::string` as its bytes, and what the program uses of the standard library on it:
-- `==`, `+`, `std::to_string` and `std::stoul`.
pub mod Decimal
pub mod Float
pub mod Keys
use Prim.Native.Char.{code}
use Prim.Native.String.{String}
use kddv.Base.{
  ℕ, ◌+◌, ◌-◌, ◌*◌, ◌/◌, ◌%◌, ◌^◌, ◌<◌, ◌≡◌, refl, ap, Bool, true, false, ◌&&◌, ◌||◌, Option, none,
  some, List, [], ◌∷◌, ◌++◌, Acc, arith, dec_lt, dite, lt_wf, ltb, leb, ◌==◌, if◌then◌else◌, ◌↔◌,
}

abbrev pub Text : Type 0
Text = List ℕ

-- A literal of the source.
abbrev pub text : String → Text
text String.[] = []
text (String.◌∷◌ c s) = code c ∷ text s

unfoldable pub str_eq : Text → Text → Bool
str_eq [] [] = true
str_eq [] (d ∷ t) = false
str_eq (c ∷ s) [] = false
str_eq (c ∷ s) (d ∷ t) = c == d && str_eq s t

abbrev pub is_empty : Text → Bool
is_empty [] = true
is_empty (c ∷ s) = false

-- `rfind(prefix, 0) == 0`
unfoldable pub has_prefix : Text → Text → Bool
has_prefix [] s = true
has_prefix (p ∷ ps) [] = false
has_prefix (p ∷ ps) (c ∷ s) = p == c && has_prefix ps s

tenth_lt : (n : ℕ) → 9 < n → n / 10 < n
tenth_lt n h = omega arith

pub to_string_acc : (n : ℕ) → Acc ◌<◌ n → Text
to_string_acc n (Acc.intro _ smaller) =
    dite (dec_lt 9 n)
      (λ h. to_string_acc (n / 10) (smaller (n / 10) (tenth_lt n h)) ++ ((b'0' + n % 10) ∷ []))
      (λ _. (b'0' + n) ∷ [])

-- `std::to_string` of an unsigned integer.
unfoldable pub to_string : ℕ → Text
unfolding to_string_acc tenth_lt lt_wf dec_lt
to_string n = to_string_acc n (lt_wf.apply n)

abbrev pub is_digit : ℕ → Bool
is_digit c = leb b'0' c && leb c b'9'

abbrev is_space : ℕ → Bool
is_space c = c == 32 || (leb 9 c && leb c 13)

skip_spaces : Text → Text
skip_spaces [] = []
skip_spaces (c ∷ s) = if is_space c then skip_spaces s else c ∷ s

-- The value of the digits in front, on top of what was read.
pub scan_digits : ℕ → Text → ℕ
scan_digits acc [] = acc
scan_digits acc (c ∷ s) =
    let more = scan_digits (acc * 10 + (c - b'0')) s in if is_digit c then more else acc

in_range : ℕ → Option ℕ
in_range v = if ltb v (2 ^ 64) then some v else none

-- `none` stands for `std::invalid_argument` and `std::out_of_range`.
digits_value : Text → Option ℕ
unfolding in_range scan_digits
digits_value [] = none
digits_value (c ∷ s) = if is_digit c then in_range (scan_digits 0 (c ∷ s)) else none

negated : Option ℕ → Option ℕ
negated none = none
negated (some v) = some ((2 ^ 64 - v) % 2 ^ 64)

signed_value : Text → Option ℕ
unfolding digits_value negated
signed_value [] = none
signed_value (c ∷ s) =
    if c == b'-'
    then negated (digits_value s)
    else if c == b'+'
    then digits_value s
    else digits_value (c ∷ s)

-- `std::stoul` in base ten, on a 64-bit `unsigned long`: what follows the digits is ignored.
unfoldable pub stoul : Text → Option ℕ
unfolding skip_spaces signed_value
stoul s = signed_value (skip_spaces s)

to_string_run : to_string 4097 ≡ text "4097"
unfolding to_string
to_string_run = refl

stoul_run : stoul (text " -1") ≡ some 0xffff_ffff_ffff_ffff
unfolding stoul
stoul_run = refl
