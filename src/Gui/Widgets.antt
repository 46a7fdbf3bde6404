-- ===== src/Gui/Widgets.antt =====
-- The widgets of src/gui.cpp that show the slaves, with the properties that the code reads or sets.
use kddv.Base.{Bool, true, List, [], ◌∷◌, ◌++◌}
use kddv.Text.{Text, text}
use kddv.Slave.{EthercatSlave, slave_id, get_rx_variables, get_tx_variables}

-- A child of a group box. A label has the text that it shows and a tool tip; a child without a name
-- is a variable's name on the left, or the layout itself.
pub record Child : Type 0 where
  pub object_name : Text
  pub shown : Text
  pub tool_tip : Text

pub record GroupBox : Type 0 where
  pub object_name : Text
  pub children : List Child
  pub is_visible : Bool

-- An item of the list of wheels.
pub record ListItem : Type 0 where
  pub item_text : Text
  pub checked : Bool

abbrev pub unnamed : Text → Child
unnamed t = record { object_name = []; shown = t; tool_tip = [] }

-- The labels of one loop over the variables: the name, and a named label for the value.
unfoldable pub add_labels : Text → List Text → List Child
add_labels kind [] = []
add_labels kind (variable ∷ variables) =
    unnamed variable
    ∷ record { object_name = kind ++ variable; shown = []; tool_tip = [] }
    ∷ add_labels kind variables

-- A group box. Its children stand in the order in which they are added; the place of the layout does
-- not matter, since it has no name.
unfoldable pub make_box : EthercatSlave → GroupBox
unfolding add_labels
make_box s = record {
  object_name = slave_id s.slave_info;
  children =
      unnamed [] ∷ add_labels (text "RX") (get_rx_variables s.device)
      ++ add_labels (text "TX") (get_tx_variables s.device);
  is_visible = true;
}

abbrev pub make_item : EthercatSlave → ListItem
make_item s = record { item_text = slave_id s.slave_info; checked = true }
