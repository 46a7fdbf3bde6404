-- ===== src/Examples/JsonModel.antt =====
-- A small JSON library that meets the laws which the theorems assume of jsoncpp.
use kddv.Base.{
  ℕ, zero, suc, ◌<◌, ◌≤◌, ◌^◌, ◌≡◌, ◌≢◌, refl, ap, ℤ, pos, Bool, true, false, Option, none, some,
  ltb, if◌then◌else◌, arith,
}
use kddv.Text.{Text, text, str_eq}
use kddv.Text.Keys.{str_eq_iff}
use kddv.Json.{JsonLib, JsonLaws, ArrayLaws}

mutual
  pub data Json : Type 0 where
    nothing : Json
    int : ℤ → Json
    uint : ℕ → Json
    uint64 : ℕ → Json
    float : ℕ → Json
    millis : ℕ → Json
    string : Text → Json
    array : Items → Json
    object : Fields → Json

  pub data Items : Type 0 where
    nil : Items
    cons : Json → Items → Items

  pub data Fields : Type 0 where
    end : Fields
    field : Text → Json → Fields → Fields

unfoldable pub find : Text → Fields → Json
find k end = nothing
find k (field j v fs) = if str_eq j k then v else find k fs

unfoldable pub store : Text → Json → Fields → Fields
store k v end = field k v end
store k v (field j w fs) = if str_eq j k then field j v fs else field j w (store k v fs)

abbrev get : Json → Text → Json
get (object fs) k = find k fs
get _ k = nothing

abbrev set : Json → Text → Json → Json
set (object fs) k w = object (store k w fs)
set nothing k w = object (field k w end)
set v k w = v

unfoldable pub nth : Items → ℕ → Json
nth nil i = nothing
nth (cons v vs) zero = v
nth (cons v vs) (suc i) = nth vs i

unfoldable pub count : Items → ℕ
count nil = 0
count (cons v vs) = suc (count vs)

unfoldable pub push : Items → Json → Items
push nil w = cons w nil
push (cons v vs) w = cons v (push vs w)

abbrev at : Json → ℕ → Json
at (array vs) i = nth vs i
at _ i = nothing

abbrev size : Json → ℕ
size (array vs) = count vs
size _ = 0

abbrev append : Json → Json → Json
append (array vs) w = array (push vs w)
append v w = v

abbrev empty : Json → Bool
empty (object (field k v fs)) = false
empty (array (cons v vs)) = false
empty nothing = true
empty (object end) = true
empty (array nil) = true
empty _ = false

abbrev as_int : Json → Option ℤ
as_int (int z) = some z
as_int (uint n) = if ltb n (2 ^ 31) then some (pos n) else none
as_int _ = none

abbrev as_string : Json → Option Text
as_string (string s) = some s
as_string _ = none

abbrev pub json : JsonLib
json = record {
  Value = Json;
  null = nothing;
  array = array nil;
  of_int = int;
  of_uint = uint;
  of_uint64 = uint64;
  of_float = float;
  of_millis = millis;
  of_string = string;
  get = get;
  set = set;
  at = at;
  size = size;
  append = append;
  empty = empty;
  as_int = as_int;
  as_string = as_string;
  write_string = λ v. text "{}";
}

abbrev IsObject : Json → Type 0
IsObject nothing = Unit {0}
IsObject (object fs) = Unit {0}
IsObject _ = ⊥

abbrev IsArray : Json → Type 0
IsArray (array vs) = Unit {0}
IsArray _ = ⊥

find-store_self : (k : Text) (w : Json) (fs : Fields) → find k (store k w fs) ≡ w
unfolding find store
find-store_self k w end = ground (arith, str_eq_iff k k)
find-store_self k w (field j v fs) = ground (arith, str_eq_iff j k, find-store_self k w fs)

find-store_ne : (k j : Text) (w : Json) (fs : Fields) → k ≢ j → find j (store k w fs) ≡ find j fs
unfolding find store
find-store_ne k j w end h = ground (arith, str_eq_iff k j)
find-store_ne k j w (field i v fs) h =
    ground (arith, str_eq_iff i k, str_eq_iff i j, find-store_ne k j w fs h)

set-IsObject : (v : Json) (k : Text) (w : Json) → IsObject v → IsObject (set v k w)
set-IsObject nothing k w o = tt
set-IsObject (object fs) k w o = tt
set-IsObject v k w o = o

get-set_self : (v : Json) (k : Text) (w : Json) → IsObject v → get (set v k w) k ≡ w
get-set_self nothing k w o = unfold find in ground (arith, str_eq_iff k k)
get-set_self (object fs) k w o = find-store_self k w fs
get-set_self v k w o = absurd o

get-set_ne : (v : Json) (k j : Text) (w : Json) → IsObject v → k ≢ j → get (set v k w) j ≡ get v j
get-set_ne nothing k j w o h = unfold find in ground (arith, str_eq_iff k j)
get-set_ne (object fs) k j w o h = find-store_ne k j w fs h
get-set_ne v k j w o h = absurd o

empty-set : (v : Json) (k : Text) (w : Json) → IsObject v → empty (set v k w) ≡ false
empty-set nothing k w o = refl
empty-set (object end) k w o = unfold store in refl
empty-set (object (field j v fs)) k w o = unfold store in ground arith
empty-set v k w o = absurd o

pub json_laws : JsonLaws json
json_laws = record {
  IsObject = IsObject;
  null-IsObject = tt;
  set-IsObject = set-IsObject;
  empty-set = empty-set;
  get-null = λ k. refl;
  get-set_self = get-set_self;
  get-set_ne = get-set_ne;
}

append-IsArray : (v w : Json) → IsArray v → IsArray (append v w)
append-IsArray (array vs) w h = tt
append-IsArray v w h = h

count-push : (vs : Items) (w : Json) → count (push vs w) ≡ suc (count vs)
unfolding count push
count-push nil w = refl
count-push (cons v vs) w = ap suc (count-push vs w)

size-append : (v w : Json) → IsArray v → size (append v w) ≡ suc (size v)
size-append (array vs) w h = count-push vs w
size-append v w h = absurd h

nth-push_old : (vs : Items) (w : Json) (i : ℕ) → i < count vs → nth (push vs w) i ≡ nth vs i
unfolding nth push count
nth-push_old nil w i h = elim h [ ]
nth-push_old (cons v vs) w zero h = refl
nth-push_old (cons v vs) w (suc i) h = nth-push_old vs w i (omega arith)

at-append_old : (v w : Json) (i : ℕ) → IsArray v → i < size v → at (append v w) i ≡ at v i
at-append_old (array vs) w i a h = nth-push_old vs w i h
at-append_old v w i a h = absurd a

nth-push_new : (vs : Items) (w : Json) → nth (push vs w) (count vs) ≡ w
unfolding nth push count
nth-push_new nil w = refl
nth-push_new (cons v vs) w = nth-push_new vs w

at-append_new : (v w : Json) → IsArray v → at (append v w) (size v) ≡ w
at-append_new (array vs) w a = nth-push_new vs w
at-append_new v w a = absurd a

as_int_narrow : (n : ℕ) → n < 2 ^ 31 → as_int (uint n) ≡ some (pos n)
as_int_narrow n h = ground arith

as_int_wide : (n : ℕ) → 2 ^ 31 ≤ n → as_int (uint n) ≡ none
as_int_wide n h = ground arith

pub array_laws : ArrayLaws json
array_laws = record {
  size-array = unfold count in refl;
  IsArray = IsArray;
  array-IsArray = tt;
  append-IsArray = append-IsArray;
  size-append = size-append;
  at-append_old = at-append_old;
  at-append_new = at-append_new;
  as_int-of_int = λ z h. refl;
  as_int-of_uint = as_int_narrow;
  as_int-of_uint_wide = as_int_wide;
  as_string-of_string = λ s. refl;
}
