-- ===== src/Examples/Drawing.antt =====
-- The terminal UI with two batteries, and without a slave.
use kddv.Base.{
  if◌then◌else◌, arith, ◌≡◌, refl, pos, false, none, some, List, [], ◌∷◌, ◌++◌, map, get_elem?,
}
use kddv.Text.{Text, text, str_eq}
use kddv.Slave.{
  EthercatSlave, slave_id, get_rx_variables, get_tx_variables, get_rx_values, get_tx_values,
}
use kddv.Tui.{Tui, Draw, configure, data_callback_during, data_callback}
use kddv.Tui.Race.{once, key_behind_guards}
use kddv.Tui.Picture.{printed, lit, interleave, data_callback_picture}
use kddv.Feed.{ready}
use kddv.Tui.Start.{choose_source, source_for, choose_source-accepted}
use kddv.Sniffer.Setup.{ConfigFile, missing, parsed}
use kddv.CommandLine.Spelling.{spell, options-spell}
use kddv.Tui.Windows.{setup_window, covering, setup_window_tiles}
use kddv.Examples.CommandLines.{sniffing, sniffing-Ready}
use kddv.Examples.JsonModel.{json}
use kddv.Examples.Driving.{before, after}

abbrev pub tui : Tui
tui = record {
  ecat_src = text "ecat";
  network_interface = text "eth0";
  config_file_name = [];
  pcap_file_name = [];
  enable_zmq = false;
  selected_slave = pos 5;
}

-- Without a slave, the selection becomes -1 and the list is read out of range.
nothing_drawn : data_callback tui [] ≡ none
unfolding data_callback
nothing_drawn = refl

data_callback_picture_example :
    (shown : EthercatSlave) × (draws : List Draw) × (get_elem? (before ∷ after ∷ []) 1 ≡ some shown)
    × (data_callback tui (before ∷ after ∷ [])
        ≡ some (record tui { selected_slave = pos 1 }, draws))
    × (printed draws
        ≡ map (λ x. slave_id x.slave_info) (before ∷ after ∷ [])
          ++ (interleave (get_rx_variables shown.device) (get_rx_values shown.device)
              ++ interleave (get_tx_variables shown.device) (get_tx_values shown.device)))
    × (lit false draws ≡ slave_id shown.slave_info ∷ [])
data_callback_picture_example = data_callback_picture tui before (after ∷ [])

-- An interface is sniffed where no PCAP file opens and the only file is the config file.
abbrev only_config : Text → ConfigFile json
only_config f = if str_eq f sniffing.config_file then parsed json.null else missing

config_found : only_config sniffing.config_file ≡ parsed json.null
unfolding str_eq
config_found = refl

choose_source-accepted_example :
    choose_source json
      (λ f. some (text "No such file"))
      (λ i. none)
      only_config
      (configure sniffing tui)
    ≡ some (ready (source_for json sniffing json.null))
choose_source-accepted_example =
    choose_source-accepted json (λ f. some (text "No such file")) (λ i. none) only_config
      (spell sniffing) sniffing tui json.null (options-spell sniffing sniffing-Ready).0
      (λ e. ground (arith, e)) (λ e. refl) (λ e. config_found)

-- The key falls before the name of the second slave is tested.
key_behind_guards_example :
    data_callback_during (once 4) (record tui { selected_slave = pos 1 }) (before ∷ after ∷ [])
    ≡ none
key_behind_guards_example =
    key_behind_guards (record tui { selected_slave = pos 1 }) (before ∷ after ∷ []) 1 4 refl refl
      (omega arith) (omega arith)

-- The last cell of a terminal of 24 rows and 80 columns.
setup_window_tiles_example : covering (setup_window 24 80) 23 79 ≡ 1
setup_window_tiles_example = setup_window_tiles 24 80 23 79 (omega arith) (omega arith)
