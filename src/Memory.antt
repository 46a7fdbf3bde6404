-- ===== src/Memory.antt =====
-- Process data as bytes: `std::memcpy` out of a buffer, and the little-endian fields of a packed
-- struct. A pointer is the list of the bytes that lie behind it.
use kddv.Base.{
  ℕ, ◌+◌, ◌*◌, ◌/◌, ◌%◌, ◌^◌, ◌<◌, ◌≤◌, ◌≡◌, Option, none, some, List, [], ◌∷◌, ◌++◌, take, drop,
  length, get_or, leb, if◌then◌else◌, ℤ, pos, negsuc, arith, take-append, length-append, le→leb,
}

-- The bytes copied; `none` is a read past the end of the buffer, which is undefined behaviour.
unfoldable pub memcpy : ℕ → List ℕ → Option (List ℕ)
memcpy n src = if leb n (length src) then some (take n src) else none

-- `&buffer[0] + offset`; `none` is a pointer outside the buffer.
unfoldable pub pointer : List ℕ → ℤ → Option (List ℕ)
pointer buffer (pos n) = if leb n (length buffer) then some (drop n buffer) else none
pointer buffer (negsuc n) = none

abbrev pub u16_at : List ℕ → ℕ → ℕ
u16_at b o = get_or b o 0 + 256 * get_or b (o + 1) 0

abbrev pub u32_at : List ℕ → ℕ → ℕ
u32_at b o = u16_at b o + 65536 * u16_at b (o + 2)

abbrev pub u64_at : List ℕ → ℕ → ℕ
u64_at b o = u32_at b o + 4294967296 * u32_at b (o + 4)

-- The same fields as the sender lays them out.
abbrev pub le16 : ℕ → List ℕ
le16 n = n % 256 ∷ n / 256 % 256 ∷ []

abbrev pub le32 : ℕ → List ℕ
le32 n = le16 (n % 65536) ++ le16 (n / 65536)

abbrev pub le64 : ℕ → List ℕ
le64 n = le32 (n % 4294967296) ++ le32 (n / 4294967296)

-- Reading back a field that the sender wrote.
pub u16_at-le16 : (n : ℕ) → n < 2 ^ 16 → u16_at (le16 n) 0 ≡ n
u16_at-le16 n h = omega arith

pub u32_at-le32 : (n : ℕ) → n < 2 ^ 32 → u32_at (le32 n) 0 ≡ n
u32_at-le32 n h = omega arith

pub u64_at-le64 : (n : ℕ) → n < 2 ^ 64 → u64_at (le64 n) 0 ≡ n
u64_at-le64 n h = omega arith

pub memcpy-eq_some : (n : ℕ) (src : List ℕ) → n ≤ length src → memcpy n src ≡ some (take n src)
unfolding memcpy
memcpy-eq_some n src h = ground arith

pub memcpy-append : (xs ys : List ℕ) → memcpy (length xs) (xs ++ ys) ≡ some xs
unfolding memcpy
memcpy-append xs ys = rw (
  le→leb (length xs) (length (xs ++ ys)) (omega (arith, length-append {0} xs ys)),
  take-append xs ys,
)

pub pointer-eq_some : (n : ℕ) (b : List ℕ) → n ≤ length b → pointer b (pos n) ≡ some (drop n b)
unfolding pointer
pointer-eq_some n b h = ground arith
