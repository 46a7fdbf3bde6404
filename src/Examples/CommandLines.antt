-- ===== src/Examples/CommandLines.antt =====
-- Command lines of the TUI and of the GUI.
use kddv.Base.{◌≢◌, ◌↔◌, ◌⊎◌, ◌≡◌, refl, inl, inr, true, List, [], ◌∷◌, arith}
use kddv.Text.{Text, text, str_eq}
use kddv.CommandLine.{
  other_word, Options, defaults, exit_1, accepted, no_config, word_of, tui_options, gui_options,
}
use kddv.CommandLine.Usage.{Documented, options_read}
use kddv.CommandLine.Ready.{Ready, tui_options-Ready}
use kddv.CommandLine.Started.{StartedAt, gui_options-StartedAt}
use kddv.CommandLine.Spelling.{spell}

abbrev pub sniffing : Options
sniffing = record defaults {
  input_source = text "sniffer";
  network_interface = text "eth0";
  config_file = text "--start";
  start = true;
}

pub sniffing-Ready : Ready sniffing
sniffing-Ready = inr (inl (refl, (λ e. ground arith), (λ e. ground arith)))

abbrev pcap_late : List Text
pcap_late =
    text "--src"
    ∷ text "ecat"
    ∷ text "--iface"
    ∷ text "eth0"
    ∷ text "--start"
    ∷ text "--src"
    ∷ text "pcap"
    ∷ []

-- The source changes behind `--start`: the GUI starts without the two files, the TUI stops.
pcap_late_run :
    (tui_options pcap_late ≡ exit_1 no_config)
    × (gui_options pcap_late
        ≡ accepted (record defaults {
          input_source = text "pcap";
          network_interface = text "eth0";
          start = true;
        }))
unfolding tui_options gui_options str_eq
pcap_late_run = (refl, refl)

tui_options-Ready_example : Ready sniffing
unfolding tui_options spell str_eq
tui_options-Ready_example = tui_options-Ready (spell sniffing) sniffing refl

gui_options-StartedAt_example : StartedAt defaults pcap_late
unfolding gui_options str_eq
gui_options-StartedAt_example =
    gui_options-StartedAt pcap_late
      (record defaults {
        input_source = text "pcap";
        network_interface = text "eth0";
        start = true;
      })
      refl refl

options_read_example :
    (word_of (text "--pcap") ≢ other_word)
    ↔ ((◌≡◌ {A = Text} (text "--pcap") (text "--publish_zmq")) ⊎ Documented (text "--pcap"))
options_read_example = options_read (text "--pcap")
