-- ===== src/Gui/Session.antt =====
-- What a user and the data source do to the window of src/gui.cpp, one event after another. A
-- button that is not enabled cannot be clicked. Data is handled before the next discovery: Qt
-- handles what was posted before a click ahead of it.
pub mod Sound
pub mod Safe
pub mod Values
pub mod Reached
pub mod Promises
use kddv.Base.{◌≡◌, true, not, some, List, [], ◌∷◌, All}
use kddv.Text.{Text}
use kddv.Json.{JsonLib}
use kddv.Slave.{EthercatSlave}
use kddv.Slave.Image.{Fits, SameClass}
use kddv.Feed.{World, Source, slaves_of}
use kddv.CommandLine.{Options}
use kddv.Gui.Widgets.{GroupBox, ListItem}
use kddv.Gui.Labels.{handle_data_changed}
use kddv.Gui.Window.{Input, Window, new_window, handle_start, handle_discover}
use kddv.Gui.Controls.{
  handle_input_button, handle_zmq_check_box, handle_select_config_file, handle_select_pcap_file,
  handle_wheel_list, configure_window, start_window,
}

-- The same slaves with other values.
pub data Alike : List EthercatSlave → List EthercatSlave → Type 0 where
  no_slaves : Alike [] []
  slave :
      {s t : EthercatSlave} {ss ts : List EthercatSlave}
      → SameClass s.device t.device
      → Alike ss ts
      → Alike (s ∷ ss) (t ∷ ts)

module _ (J : JsonLib) (w : World J) (file_name : Text → Text) where
  pub data Step (g : Window J) : Window J → Type 0 where
    click_start :
        {g' : Window J} {messages : List Text}
        → g.start_enabled ≡ true
        → handle_start J w g ≡ some (g', messages)
        → Step g g'
    click_discover :
        {g' : Window J} {messages : List Text}
        → g.discover_enabled ≡ true
        → handle_discover J w g ≡ some (g', messages)
        → Step g g'
    pick_input : (i : Input) → Step g (handle_input_button J (record g { checked_button = some i }))
    pick_interface : (t : Text) → g.if_enabled ≡ true → Step g (record g { current_text = t })
    select_config_file :
        (path : Text)
        → g.config_button_enabled ≡ true
        → Step g (handle_select_config_file J file_name path g)
    select_pcap_file :
        (path : Text)
        → g.pcap_button_enabled ≡ true
        → Step g (handle_select_pcap_file J file_name path g)
    toggle_publish :
        Step g (handle_zmq_check_box J (record g { publish_checked = not g.publish_checked }))
    toggle_units : Step g (record g { units_checked = not g.units_checked })
    toggle_item :
        (item : ListItem) (wheel_list : List ListItem)
        → Step g (handle_wheel_list J item (record g { wheel_list = wheel_list }))
    data_changed :
        (source : Source J) (slaves : List EthercatSlave) {boxes : List GroupBox}
        → g.source ≡ some source
        → Alike (slaves_of J source) slaves
        → All (λ s. Fits s.device) slaves
        → handle_data_changed g.units_checked g.boxes slaves ≡ some boxes
        → Step g (record g { boxes = boxes })

  -- From the constructor and the options of `main`, with `start` or without.
  pub data Reach (interfaces : List Text) (o : Options) : Window J → Type 0 where
    opened : Reach interfaces o (configure_window J file_name o (new_window J interfaces))
    opened_started :
        {g : Window J} {messages : List Text}
        → o.start ≡ true
        → start_window J w (configure_window J file_name o (new_window J interfaces))
          ≡ some (g, messages)
        → Reach interfaces o g
    later : {g g' : Window J} → Reach interfaces o g → Step g g' → Reach interfaces o g'
