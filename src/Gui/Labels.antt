-- ===== src/Gui/Labels.antt =====
-- `handleDataChanged` of src/gui.cpp: the values and tool tips of all labels. `none` is an index out
-- of range, or `std::stoul` throwing.
pub mod Tips
pub mod Numbers
pub mod Lines
pub mod Faithful
use kddv.Base.{
  ℕ, zero, suc, ◌-◌, ◌%◌, ◌^◌, Bool, true, false, Option, none, some, ◌>>=◌, List, [], ◌∷◌, ◌++◌,
  if◌then◌else◌, length, get_elem?, drop,
}
use kddv.Text.{Text, text, is_empty, has_prefix, stoul}
use kddv.Slave.{
  Device, EthercatSlave, get_rx_units, get_tx_units, get_rx_values, get_tx_values,
  are_bits_parsable, parse_bits,
}
use kddv.Gui.Widgets.{Child, GroupBox}

unfoldable pub spaces : ℕ → Text
spaces zero = []
spaces (suc n) = b' ' ∷ spaces n

-- `std::setw`: spaces in front, up to the width.
unfoldable pub setw : ℕ → Text → Text
unfolding spaces
setw width t = spaces (width - length t) ++ t

abbrev pub tab : ℕ
tab = 9

abbrev pub newline : ℕ
newline = 10

-- The loop over the bits.
unfoldable pub tool_tip_text : List Text → List Text → Option Text
tool_tip_text [] vals = some []
tool_tip_text (v ∷ vars) [] = none
tool_tip_text (v ∷ []) (x ∷ vals) = some (v ++ (b':' ∷ tab ∷ x))
tool_tip_text (v ∷ w ∷ vars) (x ∷ vals) = do
  rest ← tool_tip_text (w ∷ vars) vals
  some (v ++ (b':' ∷ tab ∷ x ++ (newline ∷ rest)))

-- The tool tip of a variable whose bits can be parsed; `number` is what `std::stoul` makes of the
-- value, cast to a `uint16_t`.
unfoldable pub set_tool_tip : Device → Text → Option ℕ → Child → Option Child
unfolding tool_tip_text
set_tool_tip d var_name number c =
    let set : Option Child = do
      val ← number
      let (vars, vals) = parse_bits d (val % 2 ^ 16) var_name ([], [])
      tip ← tool_tip_text vars vals
      some (record c { tool_tip = tip })
    in if are_bits_parsable d var_name then set else some c

-- What is written to a label: the value, and the unit in ten columns if units are shown.
unfoldable pub value_text : Bool → Text → List Text → ℕ → Option Text
unfolding setw
value_text true value units id = do unit ← get_elem? units id; some (value ++ setw 10 unit)
value_text false value units id = some value

-- A label named for an RX or a TX variable, of which `id` is the index.
unfoldable pub update_label : Device → Bool → List Text → List Text → ℕ → Child → Option Child
unfolding value_text set_tool_tip
update_label d show_units values units id c = do
  value ← get_elem? values id
  t ← value_text show_units value units id
  set_tool_tip d (drop 2 c.object_name) (stoul value) (record c { shown = t })

pub data Kind : Type 0 where
  nameless : Kind
  rx : Kind
  tx : Kind
  other : Kind

unfoldable pub kind_of : Text → Kind
kind_of name =
    if is_empty name
    then nameless
    else if has_prefix (text "RX") name
    then rx
    else if has_prefix (text "TX") name
    then tx
    else other

-- The loop over the children of a box, with both counters.
unfoldable pub update_children : Device → Bool → ℕ → ℕ → List Child → Option (List Child)
unfolding update_label kind_of
update_children d show_units rx_id tx_id [] = some []
update_children d show_units rx_id tx_id (c ∷ cs) = elim (kind_of c.object_name) [
  | nameless ↦ do cs' ← update_children d show_units rx_id tx_id cs; some (c ∷ cs')
  | rx ↦ do
    c' ← update_label d show_units (get_rx_values d) (get_rx_units d) rx_id c
    cs' ← update_children d show_units (suc rx_id) tx_id cs
    some (c' ∷ cs')
  | tx ↦ do
    c' ← update_label d show_units (get_tx_values d) (get_tx_units d) tx_id c
    cs' ← update_children d show_units rx_id (suc tx_id) cs
    some (c' ∷ cs')
  | other ↦ do
    c' ← set_tool_tip d c.object_name none c
    cs' ← update_children d show_units rx_id tx_id cs
    some (c' ∷ cs')
]

-- The loop over the slaves; the boxes are read at the same index.
unfoldable pub handle_data_changed :
    Bool → List GroupBox → List EthercatSlave → Option (List GroupBox)
unfolding update_children
handle_data_changed show_units boxes [] = some boxes
handle_data_changed show_units [] (s ∷ slaves) = none
handle_data_changed show_units (b ∷ boxes) (s ∷ slaves) = do
  children ← update_children s.device show_units 0 0 b.children
  boxes' ← handle_data_changed show_units boxes slaves
  some (record b { children = children } ∷ boxes')
