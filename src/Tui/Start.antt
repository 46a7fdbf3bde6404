-- ===== src/Tui/Start.antt =====
-- The choice of the source in `start` of src/tui.cpp. What libtins answers and the files are
-- arguments.
use kddv.Base.{
  ◌≡◌, ◌≢◌, arith, refl, inl, inr, true, false, Option, none, some, List, [], if◌then◌else◌,
}
use kddv.Text.{Text, text, str_eq, is_empty}
use kddv.Json.{JsonLib}
use kddv.Sniffer.Setup.{Opens, ConfigFile, parsed, constructor_error, set_config_file}
use kddv.CommandLine.{Options, accepted, tui_options}
use kddv.CommandLine.Ready.{Ready, tui_options-Ready}
use kddv.CommandLine.Spelling.{named}
use kddv.Feed.{
  new_master, Source, ethercat_master, packet_sniffer, Chosen, ready, refused, null_source,
  configured, new_sniffer,
}
use kddv.Tui.{Tui, configure}

module _ (J : JsonLib) where
  choose_sniffer : Opens → Opens → (Text → ConfigFile J) → Tui → Option (Chosen J)
  unfolding configured
  choose_sniffer open_file open_interface files t =
      let error_msg = constructor_error open_file open_interface t.network_interface false [] in
      let next = configured J files t.config_file_name in
      if is_empty error_msg
      then if is_empty t.config_file_name
        then some (refused (text "Config file not specified"))
        else next
      else some (refused error_msg)

  choose_pcap : Opens → Opens → (Text → ConfigFile J) → Tui → Option (Chosen J)
  unfolding configured
  choose_pcap open_file open_interface files t =
      let error_msg = constructor_error open_file open_interface t.pcap_file_name true [] in
      let next = configured J files t.config_file_name in
      if is_empty t.config_file_name
      then some (refused (text "Config file not specified"))
      else if is_empty t.pcap_file_name
      then some (refused (text "PCAP file not specified"))
      else if is_empty error_msg
      then next
      else some (refused error_msg)

  unfoldable pub choose_source : Opens → Opens → (Text → ConfigFile J) → Tui → Option (Chosen J)
  unfolding choose_sniffer choose_pcap
  choose_source open_file open_interface files t =
      let from_interface = choose_sniffer open_file open_interface files t in
      let from_file = choose_pcap open_file open_interface files t in
      if str_eq t.ecat_src (text "ecat")
      then some (ready (ethercat_master (new_master t.network_interface)))
      else if str_eq t.ecat_src (text "sniffer")
      then from_interface
      else if str_eq t.ecat_src (text "pcap")
      then from_file
      else some null_source

  -- The source that the options ask for, with a config file that holds `v`.
  abbrev pub source_for : Options → J.Value → Source J
  source_for o v =
      if str_eq o.input_source (text "ecat")
      then ethercat_master (new_master o.network_interface)
      else packet_sniffer (record (new_sniffer J) { config = v })

  sniffer_ne_ecat : {source : Text} → source ≡ text "sniffer" → source ≢ text "ecat"
  sniffer_ne_ecat e ecat = ground (arith, e, ecat)

  pcap_ne_ecat : {source : Text} → source ≡ text "pcap" → source ≢ text "ecat"
  pcap_ne_ecat e ecat = ground (arith, e, ecat)

  choose_source-Ready :
      (open_file open_interface : Opens) (files : Text → ConfigFile J) (o : Options) (t : Tui)
      (v : J.Value)
      → Ready o
      → (o.input_source ≡ text "pcap" → open_file o.pcap_file ≡ none)
      → (o.input_source ≡ text "sniffer" → open_interface o.network_interface ≡ none)
      → (o.input_source ≢ text "ecat" → files o.config_file ≡ parsed v)
      → choose_source open_file open_interface files (configure o t) ≡ some (ready (source_for o v))
  unfolding choose_source configure constructor_error set_config_file str_eq
  choose_source-Ready open_file open_interface files o t v (inl (e, iface)) a b c =
      rw (e, named o.network_interface iface) refl
  choose_source-Ready open_file open_interface files o t v (inr (inl (e, iface, config))) a b c =
      let has_config = named o.config_file config in
      rw (e, named o.network_interface iface, has_config, has_config, b e, c (sniffer_ne_ecat e))
        refl
  choose_source-Ready open_file open_interface files o t v (inr (inr (e, config, file))) a b c =
      let has_config = named o.config_file config in
      let has_file = named o.pcap_file file in
      rw (e, has_config, has_config, has_file, has_file, a e, c (pcap_ne_ecat e)) refl

  -- Where the TUI accepts its command line and what its source needs is there, `start` gets the source
  -- that the options ask for, and neither a message nor a null pointer: for `ecat` the master, with no
  -- further condition; for `sniffer`, where the interface can be opened, and for `pcap`, where the
  -- PCAP file can be opened, a sniffer with the config file, if that is JSON.
  pub choose_source-accepted :
      (open_file open_interface : Opens) (files : Text → ConfigFile J) (args : List Text)
      (o : Options) (t : Tui) (v : J.Value)
      → tui_options args ≡ accepted o
      → (o.input_source ≡ text "pcap" → open_file o.pcap_file ≡ none)
      → (o.input_source ≡ text "sniffer" → open_interface o.network_interface ≡ none)
      → (o.input_source ≢ text "ecat" → files o.config_file ≡ parsed v)
      → choose_source open_file open_interface files (configure o t) ≡ some (ready (source_for o v))
  choose_source-accepted open_file open_interface files args o t v h a b c =
      choose_source-Ready open_file open_interface files o t v (tui_options-Ready args o h) a b c
