-- ===== src/Examples/Clicking.antt =====
-- The graphical UI with a drive on the bus behind `eth0`.
use kddv.Base.{◌⊎◌, ◌≡◌, refl, pos, true, false, none, some, List, [], ◌∷◌, map, All, arith}
use kddv.Text.{Text, text, str_eq}
use kddv.Slave.{EthercatSlave}
use kddv.Slave.Image.{Fits}
use kddv.Feed
use kddv.Feed.{threads_run, World, Source, ethercat_master, EthercatMaster, slaves_of}
use kddv.Sniffer.Setup.{missing}
use kddv.Master
use kddv.CommandLine.{Options, defaults}
use kddv.Gui.Widgets.{GroupBox, make_box}
use kddv.Gui.Labels.{handle_data_changed}
use kddv.Gui.Labels.Faithful.{Displayed, make_box-Matching, handle_data_changed-Displayed}
use kddv.Gui.Window.{stop_label, Window, new_window, handle_discover, handle_start}
use kddv.Gui.Controls.{configure_window}
use kddv.Gui.Session.{Alike, no_slaves, slave, Step, Reach}
use kddv.Gui.Session.Sound.{Held, Labelled}
use kddv.Gui.Session.Promises.{window_state, threads_apart, Turned, start_click, data_shown}
use kddv.Examples.JsonModel.{json}
use kddv.Examples.Generating.{bus}
use kddv.Examples.Driving.{fresh, exchanges}

abbrev pub world : World json
world = record {
  open_file = λ f. none;
  open_interface = λ i. none;
  files = λ f. missing;
  fresh = fresh;
  bus = λ i. bus;
  config_init = λ i. pos 1;
  exchange = λ i. exchanges;
}

abbrev pub options : Options
options = record defaults { input_source = text "ecat"; network_interface = text "eth0" }

abbrev pub configured_window : Window json
configured_window =
    configure_window json (λ p. p) options (new_window json (text "lo" ∷ text "eth0" ∷ []))

abbrev bus_slaves : List EthercatSlave
bus_slaves = elim (Master.get_slaves fresh bus []) [ none ↦ [] | some r ↦ r.0 ]

abbrev pub found_source : Source json
found_source = ethercat_master (record {
  ifname = text "eth0";
  slaves = bus_slaves;
  zmq_publish_enabled = false;
  ethercat_running = false;
})

abbrev discovered_window : Window json
discovered_window = elim (handle_discover json world configured_window) [
  | none ↦ configured_window
  | some r ↦ r.0
]

discovery : handle_discover json world configured_window ≡ some (discovered_window, [])
unfolding handle_discover configure_window str_eq Feed.get_slaves Master.get_slaves new_window
    kddv.Gui.Controls.select_network_interface kddv.Gui.Controls.select_source
    kddv.Source.get_slave_type kddv.Source.make_device
discovery = refl

discovered_state :
    (discovered_window.source ≡ some found_source)
    × (discovered_window.start_enabled ≡ true)
    × (discovered_window.boxes ≡ map make_box bus_slaves)
    × (configured_window.discover_enabled ≡ true)
unfolding handle_discover configure_window str_eq Feed.get_slaves Master.get_slaves new_window
    kddv.Gui.Controls.select_network_interface kddv.Gui.Controls.select_source
    kddv.Source.get_slave_type kddv.Source.make_device
discovered_state = (refl, refl, refl, refl)

reached : Reach json world (λ p. p) (text "lo" ∷ text "eth0" ∷ []) options discovered_window
reached = Reach.later Reach.opened (Step.click_discover discovered_state.3 discovery)

window_state_example :
    Held json discovered_window.source discovered_window.start_enabled discovered_window.boxes
    × Labelled json discovered_window.start_text discovered_window.discover_enabled
window_state_example = window_state json world (λ p. p) discovered_window reached

start_click_example :
    (g' : Window json) × (messages : List Text) × (handle_start json world discovered_window
      ≡ some (g', messages))
    × Turned discovered_window.start_text g'.start_text messages
start_click_example = start_click json world (λ p. p) discovered_window reached discovered_state.1

same_slaves : Alike (slaves_of json found_source) bus_slaves
unfolding Master.get_slaves str_eq kddv.Source.get_slave_type kddv.Source.make_device
same_slaves = slave tt no_slaves

slaves-Fits : All (λ x. Fits x.device) bus_slaves
unfolding Master.get_slaves str_eq kddv.Source.get_slave_type kddv.Source.make_device
slaves-Fits = omega arith

data_shown_example :
    (boxes : List GroupBox) × (handle_data_changed discovered_window.units_checked
        discovered_window.boxes bus_slaves
      ≡ some boxes)
    × Displayed discovered_window.units_checked discovered_window.boxes bus_slaves boxes
data_shown_example =
    data_shown json world (λ p. p) discovered_window found_source bus_slaves reached
      discovered_state.0 same_slaves slaves-Fits

handle_data_changed-Displayed_example :
    (boxes : List GroupBox) × (handle_data_changed true (map make_box bus_slaves) bus_slaves
      ≡ some boxes)
    × Displayed true (map make_box bus_slaves) bus_slaves boxes
handle_data_changed-Displayed_example =
    handle_data_changed-Displayed true (make_box-Matching bus_slaves) slaves-Fits

abbrev started_window : Window json
started_window = elim (handle_start json world discovered_window) [
  | none ↦ discovered_window
  | some r ↦ r.0
]

starting : handle_start json world discovered_window ≡ some (started_window, [])
unfolding handle_start handle_discover configure_window str_eq Feed.get_slaves Master.get_slaves
    new_window Feed.start Master.start kddv.Gui.Controls.select_network_interface
    kddv.Gui.Controls.select_source kddv.Source.get_slave_type kddv.Source.make_device
starting = refl

threads_apart_example :
    (threads_run json started_window.source ≡ false)
    ⊎ ((started_window.start_text ≡ stop_label) × (started_window.discover_enabled ≡ false))
threads_apart_example =
    threads_apart json world (λ p. p) started_window
      (Reach.later reached (Step.click_start discovered_state.1 starting))
