-- ===== src/Json/Objects.antt =====
-- Objects built key by key, and arrays built by `append`.
use kddv.Base.{ℕ, ◌+◌, ◌≡◌, refl, ap, ◌∙◌, List, [], ◌∷◌, ◌++◌, map, All, length, arith}
use kddv.Text.{Text}
use kddv.Text.Keys.{Distinct, Apart}
use kddv.Json.{JsonLib, JsonLaws, ArrayLaws}

-- `v[key] = value`, one after the other.
unfoldable pub set_all : (J : JsonLib) → J.Value → List (Text × J.Value) → J.Value
set_all J v [] = v
set_all J v ((k, w) ∷ rest) = set_all J (J.set v k w) rest

-- From index `i` on the array holds these values.
abbrev pub At : (J : JsonLib) → J.Value → ℕ → List J.Value → Type 0
At J v i [] = Unit {0}
At J v i (e ∷ es) = (J.at v i ≡ e) × At J v (i + 1) es

module _ (J : JsonLib) (L : JsonLaws J) where
  open J use {get, set, Value}
  open L use {IsObject, set-IsObject, get-set_self, get-set_ne}

  abbrev keys : List (Text × Value) → List Text
  keys = map (λ e. e.0)

  set_all-Apart :
      (k : Text) (kvs : List (Text × Value)) (v : Value)
      → IsObject v
      → Apart k (keys kvs)
      → get (set_all J v kvs) k ≡ get v k
  unfolding set_all
  set_all-Apart k [] v o a = refl
  set_all-Apart k ((j, w) ∷ rest) v o a =
      set_all-Apart k rest _ (set-IsObject v j w o) a.1 ∙ get-set_ne v j k w o a.0

  -- With distinct keys each holds its value.
  pub get-set_all :
      (kvs : List (Text × Value)) (v : Value)
      → IsObject v
      → Distinct (keys kvs)
      → All (λ e. get (set_all J v kvs) e.0 ≡ e.1) kvs
  unfolding set_all
  get-set_all [] v o d = tt
  get-set_all ((k, w) ∷ rest) v o d = (
    set_all-Apart k rest _ (set-IsObject v k w o) d.0 ∙ get-set_self v k w o,
    get-set_all rest _ (set-IsObject v k w o) d.1,
  )

module _ (J : JsonLib) (A : ArrayLaws J) where
  open A use {IsArray, size-append, at-append_old, at-append_new}

  -- Appending adds a value at the end.
  pub At-append :
      (es : List J.Value) (i : ℕ) (v w : J.Value)
      → IsArray v
      → i + length es ≡ J.size v
      → At J v i es
      → At J (J.append v w) i (es ++ w ∷ [])
  At-append [] i v w a n h = (ap (J.at (J.append v w)) n' ∙ at-append_new v w a, tt)
    where
      n' : i ≡ J.size v
      n' = omega arith
  At-append (e ∷ es) i v w a n h =
      (at-append_old v w i a (omega arith) ∙ h.0, At-append es (i + 1) v w a (omega arith) h.1)
