-- ===== src/Gui/Agreement.antt =====
-- The two UIs of the repository, src/gui.cpp and src/tui.cpp, with the same options.
mod Read
use kddv.Base.{
  ◌≡◌, ◌≢◌, refl, sym, ap, ◌∙◌, ◌⊎◌, inl, inr, Bool, true, false, ◌||◌, Bool-cases, Option, none,
  some, List, [], ◌∷◌, if◌then◌else◌, arith,
}
use kddv.Text.{Text, text, str_eq, is_empty}
use kddv.Text.Keys.{str_eq_iff, contains}
use kddv.Json.{JsonLib}
use kddv.Feed.{World, Chosen}
use kddv.Sniffer.Setup.{constructor_error}
use kddv.CommandLine.{Options, accepted, tui_options}
use kddv.CommandLine.Ready.{Ready, tui_options-Ready}
use kddv.CommandLine.Spelling.{named}
use kddv.Gui.Window.{
  Input, ethercat_button, sniff_button, file_button, Window, new_window, no_interface_label,
  choose_for,
}
use kddv.Gui.Controls.{
  configure_window, unless_empty, select_source, select_network_interface, select_item,
  set_config_file_of, set_pcap_file, enable_zmq, handle_zmq_check_box, check_button, button_of,
  handle_input_button, enable_for,
}
use kddv.Tui.{Tui, configure}
use kddv.Tui.Start.{choose_source}
use kddv.Gui.Agreement.Read.{
  read, with_button, with_interface, with_config, with_pcap, choose_as, found_item, configured_read,
  choose_for_read,
}

module _ (J : JsonLib) where
  module _ (w : World J) (file_name : Text → Text) (o : Options) (t : Tui)
      (interfaces : List Text) where
    abbrev window : Window J
    window = configure_window J file_name o (new_window J interfaces)

    abbrev tui_choice : Option (Chosen J)
    tui_choice = choose_source J w.open_file w.open_interface w.files (configure o t)

    by_button :
        (i : Input)
        → button_of J o.input_source ≡ some i
        → is_empty o.input_source ≡ false
        → choose_as J w (
            with_pcap J o.pcap_file (
              with_config J o.config_file (
                with_interface J o.network_interface
                  (with_button J i (read J (new_window J interfaces))))))
          ≡ tui_choice
        → choose_for J w window.checked_button window ≡ tui_choice
    by_button i h named same =
        choose_for_read J w window.checked_button window
        ∙ ap (choose_as J w) (configured_read J file_name o i (new_window J interfaces) h named)
        ∙ same

    selected :
        contains o.network_interface interfaces ≡ true
        → select_item J o.network_interface (no_interface_label ∷ interfaces) no_interface_label
          ≡ o.network_interface
    unfolding contains
    selected listed =
        found_item J o.network_interface (no_interface_label ∷ interfaces) no_interface_label
          (ground (arith, listed))

    not_label :
        o.network_interface ≢ no_interface_label
        → str_eq o.network_interface no_interface_label ≡ false
    not_label proper = ground (arith, str_eq_iff o.network_interface no_interface_label, proper)

    ecat_agrees :
        o.input_source ≡ text "ecat"
        → o.network_interface ≢ []
        → contains o.network_interface interfaces ≡ true
        → o.network_interface ≢ no_interface_label
        → choose_for J w window.checked_button window ≡ tui_choice
    unfolding choose_for choose_source configure new_window button_of str_eq
    ecat_agrees e iface listed proper = by_button ethercat_button (rw e refl) (rw e refl) (
        rw
          (
            e,
            named o.network_interface iface,
            selected listed,
            named o.network_interface iface,
            not_label proper,
          )
          refl)

    sniffer_agrees :
        o.input_source ≡ text "sniffer"
        → o.network_interface ≢ []
        → o.config_file ≢ []
        → contains o.network_interface interfaces ≡ true
        → o.network_interface ≢ no_interface_label
        → choose_for J w window.checked_button window ≡ tui_choice
    unfolding choose_for choose_source configure new_window button_of str_eq
    sniffer_agrees e iface config listed proper = by_button sniff_button (rw e refl) (rw e refl) (
        rw
          (
            e,
            named o.network_interface iface,
            selected listed,
            named o.network_interface iface,
            not_label proper,
            named o.config_file config,
          )
          refl)

    pcap_agrees :
        o.input_source ≡ text "pcap"
        → o.config_file ≢ []
        → o.pcap_file ≢ []
        → choose_for J w window.checked_button window ≡ tui_choice
    unfolding choose_for choose_source configure new_window button_of str_eq
    pcap_agrees e config file =
        by_button file_button (rw e refl) (rw e refl)
          (rw (e, named o.config_file config, named o.pcap_file file) refl)

  -- The TUI and the GUI, started with the same accepted options, choose the same source, or give the
  -- same message, whatever libtins and the files answer: if the interface, where one is used, is in
  -- the list of the GUI, and is not spelled as the first line of that list.
  pub choose_source_agrees :
      (w : World J) (file_name : Text → Text) (args : List Text) (o : Options) (t : Tui)
      (interfaces : List Text)
      → tui_options args ≡ accepted o
      → (o.input_source ≡ text "pcap") ⊎ (contains o.network_interface interfaces ≡ true)
      → o.network_interface ≢ no_interface_label
      → choose_for J w
          (configure_window J file_name o (new_window J interfaces)).checked_button
          (configure_window J file_name o (new_window J interfaces))
        ≡ choose_source J w.open_file w.open_interface w.files (configure o t)
  choose_source_agrees w file_name args o t interfaces accepts listed proper =
      elim (tui_options-Ready args o accepts) [
        | inl (e, iface) ↦ elim listed [
          | inl p ↦ absurd (ground (arith, e, p))
          | inr l ↦ ecat_agrees w file_name o t interfaces e iface l proper
        ]
        | inr (inl (e, iface, config)) ↦ elim listed [
          | inl p ↦ absurd (ground (arith, e, p))
          | inr l ↦ sniffer_agrees w file_name o t interfaces e iface config l proper
        ]
        | inr (inr (e, config, file)) ↦ pcap_agrees w file_name o t interfaces e config file
      ]
