-- ===== src/Text/Keys.antt =====
-- Texts as keys: `str_eq` decides equality, and lists of distinct texts.
use kddv.Base.{◌≡◌, ◌≢◌, ◌↔◌, refl, Bool, true, false, not, ◌&&◌, ◌||◌, List, [], ◌∷◌, All, arith}
use kddv.Text.{Text, str_eq}

str_eq_refl : (t : Text) → str_eq t t ≡ true
unfolding str_eq
str_eq_refl [] = refl
str_eq_refl (c ∷ t) = ground (arith, str_eq_refl t)

str_eq→eq : (s t : Text) → str_eq s t ≡ true → s ≡ t
unfolding str_eq
str_eq→eq [] [] h = refl
str_eq→eq [] (d ∷ t) h = cc
str_eq→eq (c ∷ s) [] h = cc
str_eq→eq (c ∷ s) (d ∷ t) h = ground (arith, str_eq→eq s t)

pub str_eq_iff : (s t : Text) → (str_eq s t ≡ true) ↔ (s ≡ t)
str_eq_iff s t = (str_eq→eq s t, λ e. rw e (str_eq_refl t))

-- `k` is none of the texts.
abbrev pub Apart : Text → List Text → Type 0
Apart k ks = All (λ j. j ≢ k) ks

-- No text occurs twice.
abbrev pub Distinct : List Text → Type 0
Distinct [] = Unit {0}
Distinct (k ∷ ks) = Apart k ks × Distinct ks

unfoldable pub contains : Text → List Text → Bool
contains k [] = false
contains k (j ∷ ks) = str_eq j k || contains k ks

-- The same as a test, which runs on a table of names.
unfoldable pub distinct : List Text → Bool
unfolding contains str_eq
distinct [] = true
distinct (k ∷ ks) = not (contains k ks) && distinct ks

not_eq : (j k : Text) → str_eq j k ≡ false → j ≢ k
not_eq j k h e = cc (h, (str_eq_iff j k).1 e)

contains-Apart : (k : Text) (ks : List Text) → contains k ks ≡ false → Apart k ks
unfolding contains
contains-Apart k [] h = tt
contains-Apart k (j ∷ ks) h = (not_eq j k (ground arith), contains-Apart k ks (ground arith))

pub distinct-Distinct : (ks : List Text) → distinct ks ≡ true → Distinct ks
unfolding distinct
distinct-Distinct [] h = tt
distinct-Distinct (k ∷ ks) h =
    (contains-Apart k ks (ground arith), distinct-Distinct ks (ground arith))
