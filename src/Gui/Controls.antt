-- ===== src/Gui/Controls.antt =====
-- The other handlers of src/gui.cpp, and the methods by which `main` sets the options.
use kddv.Base.{Bool, true, false, Option, none, some, ◌>>=◌, List, [], ◌∷◌, ◌++◌, if◌then◌else◌}
use kddv.Text.{Text, text, str_eq, is_empty}
use kddv.Json.{JsonLib}
use kddv.Feed.{World, Source, set_zmq_publish}
use kddv.CommandLine.{Options}
use kddv.Gui.Widgets.{GroupBox, ListItem}
use kddv.Gui.Window.{
  Input, ethercat_button, sniff_button, file_button, Window, Handled, handle_discover, handle_start,
}

module _ (J : JsonLib) where
  unfoldable pub enable_for : Option Input → Window J → Window J
  enable_for (some ethercat_button) g = record g {
    config_button_enabled = false;
    pcap_button_enabled = false;
    if_enabled = true;
  }
  enable_for (some sniff_button) g = record g {
    config_button_enabled = true;
    pcap_button_enabled = false;
    if_enabled = true;
  }
  enable_for (some file_button) g = record g {
    config_button_enabled = true;
    pcap_button_enabled = true;
    if_enabled = false;
  }
  enable_for none g = record g {
    config_button_enabled = false;
    pcap_button_enabled = false;
    if_enabled = false;
  }

  -- `handleInputButtonChanged`
  unfoldable pub handle_input_button : Window J → Window J
  unfolding enable_for
  handle_input_button g = enable_for g.checked_button g

  unfoldable pub publish_on : Bool → Option (Source J) → Option (Source J)
  publish_on checked none = none
  publish_on checked (some source) = some (set_zmq_publish J checked source)

  -- `handleZMQCheckBox`, which the check box calls when its state has changed.
  unfoldable pub handle_zmq_check_box : Window J → Window J
  unfolding publish_on
  handle_zmq_check_box g = record g { source = publish_on g.publish_checked g.source }

  -- `handleSelectConfigFile`, with the path that the dialog gives; it is empty if the dialog is
  -- cancelled. `file_name` is what Qt takes for the last part of a path.
  unfoldable pub handle_select_config_file : (Text → Text) → Text → Window J → Window J
  handle_select_config_file file_name path g = record g {
    config_label = file_name path;
    config_file_name = path;
  }

  -- `handleSelectPCAPFile`
  unfoldable pub handle_select_pcap_file : (Text → Text) → Text → Window J → Window J
  handle_select_pcap_file file_name path g = record g {
    pcap_file_name = path;
    pcap_label = if is_empty path then g.pcap_label else file_name path;
  }

  -- The first box of that name is shown or hidden.
  unfoldable pub show_box : Text → Bool → List GroupBox → List GroupBox
  show_box name checked [] = []
  show_box name checked (b ∷ boxes) =
      if str_eq b.object_name name
      then record b { is_visible = checked } ∷ boxes
      else b ∷ show_box name checked boxes

  -- `handleWheelListChanged`
  unfoldable pub handle_wheel_list : ListItem → Window J → Window J
  unfolding show_box
  handle_wheel_list item g = record g { boxes = show_box item.item_text item.checked g.boxes }

  unfoldable pub button_of : Text → Option Input
  button_of src =
      if str_eq src (text "ecat")
      then some ethercat_button
      else if str_eq src (text "sniffer")
      then some sniff_button
      else if str_eq src (text "pcap")
      then some file_button
      else none

  unfoldable pub check_button : Option Input → Window J → Window J
  check_button none g = g
  check_button (some i) g = handle_input_button (record g { checked_button = some i })

  -- `selectSource`: `setChecked` and the handler, or nothing.
  unfoldable pub select_source : Text → Window J → Window J
  unfolding handle_input_button button_of check_button
  select_source src g = check_button (button_of src) g

  -- The loop over the items of the combo box.
  unfoldable pub select_item : Text → List Text → Text → Text
  select_item iface [] current = current
  select_item iface (item ∷ items) current =
      select_item iface items (if str_eq item iface then item else current)

  unfoldable pub select_network_interface : Text → Window J → Window J
  unfolding select_item
  select_network_interface iface g = record g {
    current_text = select_item iface g.if_items g.current_text;
  }

  unfoldable pub set_config_file_of : (Text → Text) → Text → Window J → Window J
  set_config_file_of file_name path g = record g {
    config_label = file_name path;
    config_file_name = path;
  }

  unfoldable pub set_pcap_file : (Text → Text) → Text → Window J → Window J
  set_pcap_file file_name path g = record g { pcap_label = file_name path; pcap_file_name = path }

  -- `setChecked` of the check box, whose handler runs where that changes it.
  unfoldable pub enable_zmq : Bool → Window J → Window J
  unfolding handle_zmq_check_box
  enable_zmq true g =
      if g.publish_checked then g else handle_zmq_check_box (record g { publish_checked = true })
  enable_zmq false g =
      if g.publish_checked then handle_zmq_check_box (record g { publish_checked = false }) else g

  unfoldable pub unless_empty : Text → (Window J → Window J) → Window J → Window J
  unless_empty value set g = if is_empty value then g else set g

  -- The end of `main`, up to `start`.
  unfoldable pub configure_window : (Text → Text) → Options → Window J → Window J
  unfolding unless_empty
  configure_window file_name o g =
      let with_source = unless_empty o.input_source (select_source o.input_source) g in
      let with_interface =
        unless_empty o.network_interface (select_network_interface o.network_interface)
          with_source in
      let with_config =
        unless_empty o.config_file (set_config_file_of file_name o.config_file) with_interface in
      let with_pcap = unless_empty o.pcap_file (set_pcap_file file_name o.pcap_file) with_config in
      if o.publish_zmq then enable_zmq true with_pcap else with_pcap

  -- `start`: the two buttons, one after the other.
  unfoldable pub start_window : (w : World J) → Window J → Handled J w
  start_window w g = do
    (g', messages) ← handle_discover J w g
    let clicked : Handled J w = do (g'', more) ← handle_start J w g'; some (g'', messages ++ more)
    if g'.start_enabled then clicked else some (g', messages)
