-- ===== src/Gui/Agreement/Read.antt =====
-- What the options of src/gui_main.cpp leave in the window of src/gui.cpp, as far as the choice of the
-- source reads it.
use kddv.Base.{
  ◌≡◌, refl, ap, ◌∙◌, inl, inr, true, false, Bool-cases, Option, none, some, List, [], ◌∷◌,
  if◌then◌else◌, arith,
}
use kddv.Text.{Text, str_eq, is_empty}
use kddv.Text.Keys.{str_eq_iff, contains}
use kddv.Json.{JsonLib}
use kddv.Feed.{World, Chosen}
use kddv.CommandLine.{Options}
use kddv.CommandLine.Spelling.{named}
use kddv.Gui.Window.{
  Input, ethercat_button, sniff_button, file_button, Window, new_window, choose_for,
}
use kddv.Gui.Controls.{
  configure_window, unless_empty, select_source, select_network_interface, select_item,
  set_config_file_of, set_pcap_file, enable_zmq, handle_zmq_check_box, check_button, button_of,
  handle_input_button, enable_for,
}

module _ (J : JsonLib) where
  -- A method that leaves a field as it is leaves it so under a test, too.
  unless_empty_kept :
      {A : Type 0} (field : Window J → A) (value : Text) (set : Window J → Window J) (g : Window J)
      → field (set g) ≡ field g
      → field (unless_empty J value set g) ≡ field g
  unfolding unless_empty
  unless_empty_kept field value set g h = elim (Bool-cases (is_empty value)) [
    | inl e ↦ rw e refl
    | inr e ↦ rw e h
  ]

  -- What the choice of the source reads in the window.
  abbrev pub read : Window J → Option Input × Text × List Text × Text × Text
  read g = (g.checked_button, g.current_text, g.if_items, g.config_file_name, g.pcap_file_name)

  read-enable_for : (b : Option Input) (g : Window J) → read (enable_for J b g) ≡ read g
  unfolding enable_for
  read-enable_for none g = refl
  read-enable_for (some ethercat_button) g = refl
  read-enable_for (some sniff_button) g = refl
  read-enable_for (some file_button) g = refl

  read-check_button :
      (i : Input) (g : Window J)
      → read (check_button J (some i) g) ≡ read (record g { checked_button = some i })
  unfolding check_button handle_input_button
  read-check_button i g = read-enable_for (some i) (record g { checked_button = some i })

  read-enable_zmq : (g : Window J) → read (enable_zmq J true g) ≡ read g
  unfolding enable_zmq handle_zmq_check_box
  read-enable_zmq g = elim (Bool-cases g.publish_checked) [ inl e ↦ rw e refl | inr e ↦ rw e refl ]

  kept_item : (k : Text) (items : List Text) → select_item J k items k ≡ k
  unfolding select_item
  kept_item k [] = refl
  kept_item k (j ∷ items) = elim (Bool-cases (str_eq j k)) [
    | inl e ↦ rw (e, (str_eq_iff j k).0 e) (kept_item k items)
    | inr e ↦ rw e (kept_item k items)
  ]

  -- An interface that is listed is selected.
  pub found_item :
      (k : Text) (items : List Text) (current : Text)
      → contains k items ≡ true
      → select_item J k items current ≡ k
  unfolding select_item contains
  found_item k [] current h = absurd (ground (arith, h))
  found_item k (j ∷ items) current h = elim (Bool-cases (str_eq j k)) [
    | inl e ↦ rw (e, (str_eq_iff j k).0 e) (kept_item k items)
    | inr e ↦ rw e (found_item k items current (ground (arith, h, e)))
  ]

  abbrev pub Read : Type 0
  Read = Option Input × Text × List Text × Text × Text

  abbrev pub with_button : Input → Read → Read
  with_button i (b, current, items, config, pcap) = (some i, current, items, config, pcap)

  abbrev pub with_interface : Text → Read → Read
  with_interface iface (b, current, items, config, pcap) = (
    b,
    if is_empty iface then current else select_item J iface items current,
    items,
    config,
    pcap,
  )

  abbrev pub with_config : Text → Read → Read
  with_config path (b, current, items, config, pcap) =
      (b, current, items, if is_empty path then config else path, pcap)

  abbrev pub with_pcap : Text → Read → Read
  with_pcap path (b, current, items, config, pcap) =
      (b, current, items, config, if is_empty path then pcap else path)

  source_read :
      (src : Text) (i : Input) (g : Window J)
      → button_of J src ≡ some i
      → is_empty src ≡ false
      → read (unless_empty J src (select_source J src) g) ≡ with_button i (read g)
  unfolding unless_empty select_source
  source_read src i g h named = rw (named, h) (read-check_button i g)

  interface_read :
      (iface : Text) (g : Window J)
      → read (unless_empty J iface (select_network_interface J iface) g)
        ≡ with_interface iface (read g)
  unfolding unless_empty select_network_interface
  interface_read iface g = elim (Bool-cases (is_empty iface)) [
    | inl e ↦ rw e refl
    | inr e ↦ rw e refl
  ]

  config_read :
      (file_name : Text → Text) (path : Text) (g : Window J)
      → read (unless_empty J path (set_config_file_of J file_name path) g)
        ≡ with_config path (read g)
  unfolding unless_empty set_config_file_of
  config_read file_name path g = elim (Bool-cases (is_empty path)) [
    | inl e ↦ rw e refl
    | inr e ↦ rw e refl
  ]

  pcap_read :
      (file_name : Text → Text) (path : Text) (g : Window J)
      → read (unless_empty J path (set_pcap_file J file_name path) g) ≡ with_pcap path (read g)
  unfolding unless_empty set_pcap_file
  pcap_read file_name path g = elim (Bool-cases (is_empty path)) [
    | inl e ↦ rw e refl
    | inr e ↦ rw e refl
  ]

  -- What the options leave in a new window.
  pub configured_read :
      (file_name : Text → Text) (o : Options) (i : Input) (g : Window J)
      → button_of J o.input_source ≡ some i
      → is_empty o.input_source ≡ false
      → read (configure_window J file_name o g)
        ≡ with_pcap o.pcap_file (
            with_config o.config_file (with_interface o.network_interface (with_button i (read g))))
  unfolding configure_window
  configured_read file_name o i g h named =
      let g₁ = unless_empty J o.input_source (select_source J o.input_source) g in
      let g₂ =
        unless_empty J o.network_interface (select_network_interface J o.network_interface) g₁ in
      let g₃ = unless_empty J o.config_file (set_config_file_of J file_name o.config_file) g₂ in
      let g₄ = unless_empty J o.pcap_file (set_pcap_file J file_name o.pcap_file) g₃ in
      let published : read (if o.publish_zmq then enable_zmq J true g₄ else g₄) ≡ read g₄ =
        elim (Bool-cases o.publish_zmq) [ inl e ↦ rw e (read-enable_zmq g₄) | inr e ↦ rw e refl ] in
      published
      ∙ pcap_read file_name o.pcap_file g₃
      ∙ ap (with_pcap o.pcap_file) (
          config_read file_name o.config_file g₂
          ∙ ap (with_config o.config_file) (
              interface_read o.network_interface g₁
              ∙ ap (with_interface o.network_interface) (source_read o.input_source i g h named)))

  -- The choice depends on what is read only.
  module _ (w : World J) where
    abbrev pub choose_as : Read → Option (Chosen J)
    choose_as (b, current, items, config, pcap) = choose_for J w b (record (new_window J []) {
      current_text = current;
      config_file_name = config;
      pcap_file_name = pcap;
    })

    pub choose_for_read :
        (b : Option Input) (g : Window J)
        → choose_for J w b g
          ≡ choose_as (b, g.current_text, g.if_items, g.config_file_name, g.pcap_file_name)
    unfolding choose_for
    choose_for_read none g = refl
    choose_for_read (some ethercat_button) g = refl
    choose_for_read (some sniff_button) g = refl
    choose_for_read (some file_button) g = refl
