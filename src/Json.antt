-- ===== src/Json.antt =====
-- What the program uses of jsoncpp, which is not part of the repository: a parameter of the model.
-- `JsonLaws` states the documented behaviour on which theorems rely.
pub mod Assign
pub mod Objects
use kddv.Base.{
  ℕ, suc, ◌-◌, ◌<◌, ◌≤◌, ◌^◌, ◌≡◌, ◌≢◌, Bool, false, Option, none, some, ℤ, ◌≤ℤ◌, pos, negsuc,
}
use kddv.Text.{Text}
use kddv.Scalar.{Scalar, u16, u32, u64, f32}

pub record JsonLib : Type 1 where
  pub Value : Type 0
  -- `Json::Value()`, and `Json::arrayValue`.
  pub null : Value
  pub array : Value
  pub of_int : ℤ → Value
  pub of_uint : ℕ → Value
  pub of_uint64 : ℕ → Value
  -- A `double` made of the float with this bit pattern, and of milliseconds over 1000.0.
  pub of_float : ℕ → Value
  pub of_millis : ℕ → Value
  pub of_string : Text → Value
  -- `v[key]` read, and `v[key] = w`.
  pub get : Value → Text → Value
  pub set : Value → Text → Value → Value
  -- `v[i]`, `v.size()` and `v.append(w)` on arrays.
  pub at : Value → ℕ → Value
  pub size : Value → ℕ
  pub append : Value → Value → Value
  pub empty : Value → Bool
  -- `asInt` and `asString` throw where the value does not convert: `none`.
  pub as_int : Value → Option ℤ
  pub as_string : Value → Option Text
  pub write_string : Value → Text

-- The range of `int`.
abbrev pub IsInt : ℤ → Type 0
IsInt z = (negsuc (2 ^ 31 - 1) ≤ℤ z) × (z ≤ℤ pos (2 ^ 31 - 1))

-- `IsObject v` is that `v` is null or an object, on which `operator[]` takes a key.
pub record JsonLaws (J : JsonLib) : Type 1 where
  pub IsObject : J.Value → Type 0
  pub null-IsObject : IsObject J.null
  pub set-IsObject : (v : J.Value) (k : Text) (w : J.Value) → IsObject v → IsObject (J.set v k w)
  pub empty-set :
      (v : J.Value) (k : Text) (w : J.Value) → IsObject v → J.empty (J.set v k w) ≡ false
  pub get-null : (k : Text) → J.get J.null k ≡ J.null
  pub get-set_self : (v : J.Value) (k : Text) (w : J.Value) → IsObject v → J.get (J.set v k w) k ≡ w
  pub get-set_ne :
      (v : J.Value) (k j : Text) (w : J.Value)
      → IsObject v
      → k ≢ j
      → J.get (J.set v k w) j ≡ J.get v j

-- The documented behaviour of arrays and of the conversions.
pub record ArrayLaws (J : JsonLib) : Type 1 where
  pub size-array : J.size J.array ≡ 0
  pub IsArray : J.Value → Type 0
  pub array-IsArray : IsArray J.array
  pub append-IsArray : (v w : J.Value) → IsArray v → IsArray (J.append v w)
  pub size-append : (v w : J.Value) → IsArray v → J.size (J.append v w) ≡ suc (J.size v)
  pub at-append_old :
      (v w : J.Value) (i : ℕ) → IsArray v → i < J.size v → J.at (J.append v w) i ≡ J.at v i
  pub at-append_new : (v w : J.Value) → IsArray v → J.at (J.append v w) (J.size v) ≡ w
  pub as_int-of_int : (z : ℤ) → IsInt z → J.as_int (J.of_int z) ≡ some z
  pub as_int-of_uint : (n : ℕ) → n < 2 ^ 31 → J.as_int (J.of_uint n) ≡ some (pos n)
  pub as_int-of_uint_wide : (n : ℕ) → 2 ^ 31 ≤ n → J.as_int (J.of_uint n) ≡ none
  pub as_string-of_string : (s : Text) → J.as_string (J.of_string s) ≡ some s

-- The overloads of `Json::Value`'s constructor: a `uint16_t` becomes an `int`.
abbrev pub of_scalar : (J : JsonLib) → Scalar → J.Value
of_scalar J (u16 n) = J.of_int (pos n)
of_scalar J (u32 n) = J.of_uint n
of_scalar J (u64 n) = J.of_uint64 n
of_scalar J (f32 w) = J.of_float w
