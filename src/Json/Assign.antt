-- ===== src/Json/Assign.antt =====
-- Runs of assignments `data[group][key] = value`, as the slaves' `convertToJson` makes them.
use kddv.Base.{◌≡◌, ◌≢◌, refl, ◌∙◌, List, [], ◌∷◌, map, All}
use kddv.Text.{Text}
use kddv.Text.Keys.{Distinct, Apart}
use kddv.Scalar.{Scalar}
use kddv.Json.{JsonLib, JsonLaws, of_scalar}

-- The statements run in order, each on the value that the one before left.
unfoldable pub assign : (J : JsonLib) → Text → List (Text × Scalar) → J.Value → J.Value
assign J group [] v = v
assign J group ((k, x) ∷ rest) v =
    assign J group rest (J.set v group (J.set (J.get v group) k (of_scalar J x)))

abbrev keys : List (Text × Scalar) → List Text
keys = map (λ e. e.0)

module _ (J : JsonLib) (L : JsonLaws J) where
  open J use {get, set, null, Value}
  open L use {IsObject, set-IsObject, get-set_self, get-set_ne}

  -- Another group is left alone.
  pub assign_other :
      (group other : Text) (kvs : List (Text × Scalar)) (v : Value)
      → IsObject v
      → group ≢ other
      → get (assign J group kvs v) other ≡ get v other
  unfolding assign
  assign_other group other [] v o ne = refl
  assign_other group other ((k, x) ∷ rest) v o ne =
      assign_other group other rest _ (set-IsObject v group _ o) ne
      ∙ get-set_ne v group other _ o ne

  pub assign-IsObject :
      (group : Text) (kvs : List (Text × Scalar)) (v : Value)
      → IsObject v
      → IsObject (assign J group kvs v)
  unfolding assign
  assign-IsObject group [] v o = o
  assign-IsObject group ((k, x) ∷ rest) v o =
      assign-IsObject group rest _ (set-IsObject v group _ o)

  -- One assignment leaves objects, and the group is what was stored.
  assigned :
      (group j : Text) (w : Value) (v : Value)
      → IsObject v
      → IsObject (get v group)
      → IsObject (set v group (set (get v group) j w))
        × (get (set v group (set (get v group) j w)) group ≡ set (get v group) j w)
        × IsObject (get (set v group (set (get v group) j w)) group)
  assigned group j w v o g =
      let e = get-set_self v group (set (get v group) j w) o in
      (set-IsObject v group _ o, e, rw e (set-IsObject (get v group) j w g))

  -- A key that is not assigned keeps its value.
  assign-Apart :
      (group k : Text) (kvs : List (Text × Scalar)) (v : Value)
      → IsObject v
      → IsObject (get v group)
      → Apart k (keys kvs)
      → get (get (assign J group kvs v) group) k ≡ get (get v group) k
  unfolding assign
  assign-Apart group k [] v o g a = refl
  assign-Apart group k ((j, x) ∷ rest) v o g a =
      let (o', e, g') = assigned group j (of_scalar J x) v o g in
      assign-Apart group k rest _ o' g' a.1 ∙ rw e (get-set_ne (get v group) j k _ g a.0)

  -- After assignments to distinct keys each key holds its value.
  pub get-assign :
      (group : Text) (kvs : List (Text × Scalar)) (v : Value)
      → IsObject v
      → IsObject (get v group)
      → Distinct (keys kvs)
      → All (λ e. get (get (assign J group kvs v) group) e.0 ≡ of_scalar J e.1) kvs
  unfolding assign
  get-assign group [] v o g d = tt
  get-assign group ((k, x) ∷ rest) v o g d =
      let (o', e, g') = assigned group k (of_scalar J x) v o g in
      (
        assign-Apart group k rest _ o' g' d.0 ∙ rw e (get-set_self (get v group) k _ g),
        get-assign group rest _ o' g' d.1,
      )
