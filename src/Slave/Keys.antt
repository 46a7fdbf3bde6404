-- ===== src/Slave/Keys.antt =====
-- The name under which a slave stands in the JSON message and on the screen tells slaves apart.
use kddv.Base.{ℕ, suc, ◌≡◌, ◌≢◌, ap, ◌∙◌, sym, true, [], ◌∷◌, ◌++◌, All, arith, ℤ, pos, negsuc}
use kddv.Text.{Text, text, to_string, is_digit, scan_digits}
use kddv.Text.Decimal.{to_string-digits, scan_digits-to_string}
use kddv.Scalar.{int_to_string}
use kddv.Slave.{SlaveInfo, slave_id}

abbrev NoSpace : Text → Type 0
NoSpace s = All (λ c. c ≢ 32) s

digits-NoSpace : (s : Text) → All (λ c. is_digit c ≡ true) s → NoSpace s
digits-NoSpace [] h = tt
digits-NoSpace (c ∷ s) h = (ground (arith, h.0), digits-NoSpace s h.1)

int_to_string-NoSpace : (z : ℤ) → NoSpace (int_to_string z)
unfolding int_to_string
int_to_string-NoSpace (pos n) = digits-NoSpace (to_string n) (to_string-digits n)
int_to_string-NoSpace (negsuc n) =
    (omega arith, digits-NoSpace (to_string (suc n)) (to_string-digits (suc n)))

space_inside : (ys : Text) (s t : Text) → NoSpace s → s ≢ ys ++ 32 ∷ t
space_inside [] [] t h e = cc
space_inside [] (c ∷ s) t h e = ground arith
space_inside (y ∷ ys) [] t h e = cc
space_inside (y ∷ ys) (c ∷ s) t h e = space_inside ys s t h.1 (ground arith)

-- A text is split at its last space in one way.
last_space :
    (xs ys s t : Text) → NoSpace s → NoSpace t → xs ++ 32 ∷ s ≡ ys ++ 32 ∷ t → (xs ≡ ys) × (s ≡ t)
last_space [] [] s t hs ht e = ground arith
last_space [] (y ∷ ys) s t hs ht e = absurd (space_inside ys s t hs (ground arith))
last_space (x ∷ xs) [] s t hs ht e = absurd (space_inside xs t s ht (ground arith))
last_space (x ∷ xs) (y ∷ ys) s t hs ht e = ground (arith, last_space xs ys s t hs ht)

to_string_injective : (m n : ℕ) → to_string m ≡ to_string n → m ≡ n
to_string_injective m n e =
    sym (scan_digits-to_string m) ∙ ap (scan_digits 0) e ∙ scan_digits-to_string n

minus_not_digits : (n : ℕ) (s : Text) → to_string n ≢ b'-' ∷ s
minus_not_digits n s e = front (to_string n) e (to_string-digits n)
  where
    front : (t : Text) → t ≡ b'-' ∷ s → All (λ c. is_digit c ≡ true) t → ⊥
    front [] e h = cc
    front (c ∷ t) e h = ground arith

int_to_string_injective : (y z : ℤ) → int_to_string y ≡ int_to_string z → y ≡ z
unfolding int_to_string
int_to_string_injective (pos m) (pos n) e = ap pos (to_string_injective m n e)
int_to_string_injective (pos m) (negsuc n) e = absurd (minus_not_digits m _ e)
int_to_string_injective (negsuc m) (pos n) e = absurd (minus_not_digits n _ (sym e))
int_to_string_injective (negsuc m) (negsuc n) e =
    let p : suc m ≡ suc n = to_string_injective (suc m) (suc n) (ground arith) in ground arith

-- Two slaves with the same key have the same name and the same number, for any names and numbers.
pub slave_id_injective :
    (a b : SlaveInfo)
    → slave_id a ≡ slave_id b
    → (a.name ≡ b.name) × (a.slave_number ≡ b.slave_number)
unfolding slave_id
slave_id_injective a b e =
    let (p, q) =
      last_space a.name b.name (int_to_string a.slave_number) (int_to_string b.slave_number)
        (int_to_string-NoSpace a.slave_number) (int_to_string-NoSpace b.slave_number) e in
    (p, int_to_string_injective a.slave_number b.slave_number q)

pub slave_id-ne-timestamp : (a : SlaveInfo) → slave_id a ≢ text "timestamp"
unfolding slave_id
slave_id-ne-timestamp a e =
    space_inside a.name (text "timestamp") (int_to_string a.slave_number) (omega arith) (sym e)
