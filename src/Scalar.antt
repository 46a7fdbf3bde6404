-- ===== src/Scalar.antt =====
-- The C types of the process data, as the overloads of `std::to_string` tell them apart. `f32` holds
-- a float's bit pattern. An `int` is a signed number.
use kddv.Base.{ℕ, suc, List, [], ◌∷◌, ◌++◌, ℤ, pos, negsuc}
use kddv.Memory.{le16, le32, le64}
use kddv.Text.{Text, to_string}
use kddv.Text.Float.{float_to_string}

pub data Scalar : Type 0 where
  u16 : ℕ → Scalar
  u32 : ℕ → Scalar
  u64 : ℕ → Scalar
  f32 : ℕ → Scalar

unfoldable pub scalar_to_string : Scalar → Text
scalar_to_string (u16 n) = to_string n
scalar_to_string (u32 n) = to_string n
scalar_to_string (u64 n) = to_string n
scalar_to_string (f32 w) = float_to_string w

unfoldable pub int_to_string : ℤ → Text
int_to_string (pos n) = to_string n
int_to_string (negsuc n) = b'-' ∷ to_string (suc n)

-- The bytes of a value on the wire, and of one value after another.
abbrev pub wire : List Scalar → List ℕ
wire [] = []
wire (u16 n ∷ s) = le16 n ++ wire s
wire (u32 n ∷ s) = le32 n ++ wire s
wire (u64 n ∷ s) = le64 n ++ wire s
wire (f32 w ∷ s) = le32 w ++ wire s
