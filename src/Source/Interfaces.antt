-- ===== src/Source/Interfaces.antt =====
-- `getNetworkInterfaces` of src/ethercat_data_source.cpp, over the array that `if_nameindex` gives.
use kddv.Base.{
  ◌≡◌, refl, ℕ, Bool, true, false, not, ◌||◌, ◌==◌, Bool-cases, inl, inr, Option, none, some, ◌>>=◌,
  List, [], ◌∷◌, ◌++◌, map, if◌then◌else◌,
}
use kddv.Text.{Text}

pub record IfNameIndex : Type 0 where
  pub if_index : ℕ
  -- `none` is NULL.
  pub if_name : Option Text

abbrev is_null : Option Text → Bool
is_null none = true
is_null (some name) = false

-- The loop; `none` is a read behind the array, or a string made of NULL.
unfoldable pub interfaces_from : List IfNameIndex → Option (List Text)
interfaces_from [] = none
interfaces_from (intf ∷ rest) =
    let others = interfaces_from rest in
    if not (intf.if_index == 0) || not (is_null intf.if_name)
    then (do name ← intf.if_name; interfaces ← others; some (name ∷ interfaces))
    else some []

-- `if_nameindex` gives NULL where it fails.
unfoldable pub get_network_interfaces : Option (List IfNameIndex) → Option (List Text)
unfolding interfaces_from
get_network_interfaces none = some []
get_network_interfaces (some if_nidxs) = interfaces_from if_nidxs

abbrev pub entry : ℕ × Text → IfNameIndex
entry (index, name) = record { if_index = index; if_name = some name }

abbrev pub terminator : IfNameIndex
terminator = record { if_index = 0; if_name = none }

-- On an array as `if_nameindex` documents it, entries with names and behind them one of index 0
-- without a name, `getNetworkInterfaces` gives these names in their order, and does not read what
-- stands in memory behind that entry.
pub get_network_interfaces_names :
    (named : List (ℕ × Text)) (behind : List IfNameIndex)
    → get_network_interfaces (some (map entry named ++ (terminator ∷ behind)))
      ≡ some (map (λ e. e.1) named)
unfolding get_network_interfaces
get_network_interfaces_names [] behind = refl
get_network_interfaces_names ((index, name) ∷ named) behind =
    let more = get_network_interfaces_names named behind in
    elim (Bool-cases (index == 0)) [ inl e ↦ rw (e, more) refl | inr e ↦ rw (e, more) refl ]
