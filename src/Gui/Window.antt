-- ===== src/Gui/Window.antt =====
-- The state of the graphical UI and the handlers of src/gui.cpp. A handler gives the texts of the
-- message boxes that it opens; `none` is a null pointer, or an exception that nothing catches.
use kddv.Base.{
  Bool, true, false, ◌||◌, Option, none, some, ◌>>=◌, List, [], ◌∷◌, map, if◌then◌else◌,
}
use kddv.Text.{Text, text, str_eq, is_empty}
use kddv.Json.{JsonLib}
use kddv.Sniffer.Setup.{constructor_error}
use kddv.Feed
use kddv.Feed.{
  World, new_master, Source, ethercat_master, slaves_of, set_zmq_publish, Chosen, ready, refused,
  null_source, configured,
}
use kddv.Gui.Widgets.{GroupBox, ListItem, make_box, make_item}

-- The radio buttons, which exclude one another.
pub data Input : Type 0 where
  ethercat_button : Input
  sniff_button : Input
  file_button : Input

pub record Window (J : JsonLib) : Type 0 where
  pub checked_button : Option Input
  pub if_items : List Text
  pub current_text : Text
  pub if_enabled : Bool
  pub config_button_enabled : Bool
  pub pcap_button_enabled : Bool
  pub config_label : Text
  pub pcap_label : Text
  pub start_enabled : Bool
  pub start_text : Text
  pub discover_enabled : Bool
  pub publish_checked : Bool
  pub units_checked : Bool
  pub wheel_list : List ListItem
  pub boxes : List GroupBox
  pub config_file_name : Text
  pub pcap_file_name : Text
  pub source : Option (Source J)

abbrev pub start_label : Text
start_label = text "Start"

abbrev pub stop_label : Text
stop_label = text "Stop"

abbrev pub no_interface_label : Text
no_interface_label = text "Network Interface"

-- `populateNetworkInterfaces`, on what `getNetworkInterfaces` gives.
abbrev pub populate_network_interfaces : List Text → List Text
populate_network_interfaces interfaces = no_interface_label ∷ interfaces

-- The constructor, with the interfaces that the system lists.
unfoldable pub new_window : (J : JsonLib) → List Text → Window J
new_window J interfaces = record {
  checked_button = none;
  if_items = populate_network_interfaces interfaces;
  current_text = no_interface_label;
  if_enabled = false;
  config_button_enabled = false;
  pcap_button_enabled = false;
  config_label = [];
  pcap_label = [];
  start_enabled = false;
  start_text = start_label;
  discover_enabled = true;
  publish_checked = false;
  units_checked = false;
  wheel_list = [];
  boxes = [];
  config_file_name = [];
  pcap_file_name = [];
  source = none;
}

module _ (J : JsonLib) (w : World J) where
  abbrev pub Handled : Type 0
  Handled = Option (Window J × List Text)

  critical : Window J → Text → Window J × List Text
  critical g error_msg = (g, error_msg ∷ [])

  -- What a click on Start makes of the source and `error_msg` afterwards.
  unfoldable pub reading : Window J → Source J → Text → Window J × List Text
  unfolding critical
  reading g source error_msg =
      if is_empty error_msg
      then (
        record g { source = some source; discover_enabled = false; start_text = stop_label },
        [],
      )
      else critical (record g { source = some source }) error_msg

  unfoldable pub start_reading : Window J → Handled
  unfolding reading
  start_reading g = do
    source ← g.source
    let (source', error_msg) = Feed.start J w source []
    some (reading g source' error_msg)

  unfoldable pub stop_reading : Window J → Handled
  stop_reading g = do
    source ← g.source
    some (
      record g {
        source = some (Feed.stop J source);
        discover_enabled = true;
        start_text = start_label;
      },
      [],
    )

  unfoldable pub handle_start : Window J → Handled
  unfolding start_reading stop_reading
  handle_start g =
      if str_eq g.start_text start_label
      then start_reading g
      else if str_eq g.start_text stop_label
      then stop_reading g
      else some (g, [])

  -- The first part of `handleDiscoverButton`: nothing is left of the slaves before.
  abbrev pub cleared : Window J → Window J
  cleared g = record g { start_enabled = false; boxes = []; wheel_list = []; source = none }

  not_selected : Text → Bool
  not_selected interface = is_empty interface || str_eq interface no_interface_label

  choose_ethercat : Window J → Chosen J
  unfolding not_selected
  choose_ethercat g =
      if not_selected g.current_text
      then refused (text "Network Interface not selected")
      else ready (ethercat_master (new_master g.current_text))

  choose_sniff : Window J → Option (Chosen J)
  unfolding not_selected
  choose_sniff g =
      let error_msg = constructor_error w.open_file w.open_interface g.current_text false [] in
      let next = configured J w.files g.config_file_name in
      if not_selected g.current_text
      then some (refused (text "Network Interface not selected"))
      else if is_empty error_msg
      then if is_empty g.config_file_name
        then some (refused (text "Config file not specified"))
        else next
      else some (refused error_msg)

  choose_file : Window J → Option (Chosen J)
  choose_file g =
      let error_msg = constructor_error w.open_file w.open_interface g.pcap_file_name true [] in
      let next = configured J w.files g.config_file_name in
      if is_empty g.config_file_name
      then some (refused (text "Config file not specified"))
      else if is_empty g.pcap_file_name
      then some (refused (text "PCAP file not specified"))
      else if is_empty error_msg
      then next
      else some (refused error_msg)

  unfoldable pub choose_for : Option Input → Window J → Option (Chosen J)
  unfolding choose_ethercat choose_sniff choose_file
  choose_for none g = some (refused (text "Select a data source first"))
  choose_for (some ethercat_button) g = some (choose_ethercat g)
  choose_for (some sniff_button) g = choose_sniff g
  choose_for (some file_button) g = choose_file g

  -- The slaves of a source that was found, in the list and in the boxes.
  unfoldable pub with_slaves : Window J → Source J → Window J
  with_slaves g source = record g {
    wheel_list = map make_item (slaves_of J source);
    boxes = map make_box (slaves_of J source);
    start_enabled = true;
    source = some source;
  }

  unfoldable pub discovered : Window J → Source J → Text → Window J × List Text
  unfolding critical with_slaves
  discovered g source error_msg =
      if is_empty error_msg then (with_slaves g source, []) else critical g error_msg

  unfoldable pub discover_with : Window J → Chosen J → Handled
  unfolding critical discovered
  discover_with g (refused error_msg) = some (critical g error_msg)
  discover_with g null_source = none
  discover_with g (ready source) = do
    (source', error_msg) ← Feed.get_slaves J w (set_zmq_publish J g.publish_checked source) []
    some (discovered g source' error_msg)

  unfoldable pub handle_discover : Window J → Handled
  unfolding choose_for discover_with
  handle_discover g = do chosen ← choose_for g.checked_button g; discover_with (cleared g) chosen
