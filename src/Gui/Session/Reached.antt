-- ===== src/Gui/Session/Reached.antt =====
-- Every window that can be reached is sound, so that no click and no data makes it fail.
use kddv.Base.{
  ◌≡◌, refl, sym, ◌∙◌, subst, inl, inr, true, not, Bool-cases, some, some-injective, >>=-eq-some,
  List, ◌++◌, arith,
}
use kddv.Text.{Text, is_empty}
use kddv.Json.{JsonLib}
use kddv.Feed.{World, slaves_of}
use kddv.CommandLine.{Options}
use kddv.Gui.Window.{Window, handle_discover}
use kddv.Gui.Controls.{
  button_of, check_button, select_source, select_network_interface, set_config_file_of,
  set_pcap_file, enable_zmq, unless_empty, handle_input_button, handle_select_config_file,
  handle_select_pcap_file, handle_wheel_list, configure_window, start_window,
}
use kddv.Gui.Session
use kddv.Gui.Session.{Alike, Step, Reach}
use kddv.Gui.Session.Sound.{
  Inv, new_window-Inv, check_button-Inv, handle_zmq_check_box-Inv, show_box-Matching, with_boxes,
}
use kddv.Gui.Session.Values.{handle_data_changed-Matching}
use kddv.Gui.Session.Safe.{Handles, handle_start-Handles, handle_discover-Inv, result_is}

module _ (J : JsonLib) where
  unless_empty-Inv :
      (value : Text) (set : Window J → Window J)
      → ((g : Window J) → Inv J g → Inv J (set g))
      → (g : Window J) → Inv J g
      → Inv J (unless_empty J value set g)
  unfolding unless_empty
  unless_empty-Inv value set keep g inv = elim (Bool-cases (is_empty value)) [
    | inl e ↦ rw e inv
    | inr e ↦ rw e (keep g inv)
  ]

  select_source-Inv : (src : Text) (g : Window J) → Inv J g → Inv J (select_source J src g)
  unfolding select_source
  select_source-Inv src g inv = check_button-Inv J (button_of J src) g inv

  enable_zmq-Inv : (g : Window J) → Inv J g → Inv J (enable_zmq J true g)
  unfolding enable_zmq
  enable_zmq-Inv g inv = elim (Bool-cases g.publish_checked) [
    | inl e ↦ rw e (record { held = inv.held; labelled = inv.labelled; quiet = inv.quiet })
    | inr e ↦ rw e (
        handle_zmq_check_box-Inv J (record g { publish_checked = true })
          (record { held = inv.held; labelled = inv.labelled; quiet = inv.quiet }))
  ]

  configure_window-Inv :
      (file_name : Text → Text) (o : Options) (g : Window J)
      → Inv J g
      → Inv J (configure_window J file_name o g)
  unfolding configure_window select_network_interface set_config_file_of set_pcap_file
  configure_window-Inv file_name o g inv =
      let a =
        unless_empty-Inv o.input_source (select_source J o.input_source)
          (select_source-Inv o.input_source) g inv in
      let b =
        unless_empty-Inv o.network_interface (select_network_interface J o.network_interface)
          (λ g' i. record { held = i.held; labelled = i.labelled; quiet = i.quiet }) _ a in
      let c =
        unless_empty-Inv o.config_file (set_config_file_of J file_name o.config_file)
          (λ g' i. record { held = i.held; labelled = i.labelled; quiet = i.quiet }) _ b in
      let d =
        unless_empty-Inv o.pcap_file (set_pcap_file J file_name o.pcap_file)
          (λ g' i. record { held = i.held; labelled = i.labelled; quiet = i.quiet }) _ c in
      elim (Bool-cases o.publish_zmq) [ inl e ↦ rw e (enable_zmq-Inv _ d) | inr e ↦ rw e d ]

  start_window-Inv :
      (w : World J) (g : Window J) {g' : Window J} {messages : List Text}
      → Inv J g
      → start_window J w g ≡ some (g', messages)
      → Inv J g'
  unfolding start_window Handles
  start_window-Inv w g inv h =
      let (p, at_p, more) = >>=-eq-some (handle_discover J w g) _ h in
      let inv_p = handle_discover-Inv J w g inv at_p in
      elim (Bool-cases p.0.start_enabled) [
        | inl on ↦
            let (g'', messages, at_start, inv'') = handle_start-Handles J w p.0 inv_p on in
            result_is J w (g'', p.1 ++ messages) inv'' (sym (rw (on, at_start) refl) ∙ more)
        | inr off ↦ result_is J w p inv_p (sym (rw off refl) ∙ more)
      ]

  Step-Inv :
      (w : World J) (file_name : Text → Text) {g g' : Window J}
      → Inv J g
      → Session.Step J w file_name g g'
      → Inv J g'
  unfolding Handles handle_select_config_file handle_select_pcap_file handle_wheel_list
      handle_input_button check_button
  Step-Inv w file_name {g = g} inv (Step.click_start on h) =
      let (g'', messages, done, inv'') = handle_start-Handles J w g inv on in
      result_is J w (g'', messages) inv'' (sym done ∙ h)
  Step-Inv w file_name {g = g} inv (Step.click_discover on h) = handle_discover-Inv J w g inv h
  Step-Inv w file_name {g = g} inv (Step.pick_input i) = check_button-Inv J (some i) g inv
  Step-Inv w file_name inv (Step.pick_interface t on) = record {
    held = inv.held;
    labelled = inv.labelled;
    quiet = inv.quiet;
  }
  Step-Inv w file_name inv (Step.select_config_file path on) = record {
    held = inv.held;
    labelled = inv.labelled;
    quiet = inv.quiet;
  }
  Step-Inv w file_name inv (Step.select_pcap_file path on) = record {
    held = inv.held;
    labelled = inv.labelled;
    quiet = inv.quiet;
  }
  Step-Inv w file_name {g = g} inv Step.toggle_publish =
      handle_zmq_check_box-Inv J (record g { publish_checked = not g.publish_checked })
        (record { held = inv.held; labelled = inv.labelled; quiet = inv.quiet })
  Step-Inv w file_name inv Step.toggle_units = record {
    held = inv.held;
    labelled = inv.labelled;
    quiet = inv.quiet;
  }
  Step-Inv w file_name {g = g} inv (Step.toggle_item item wheel_list) = record {
    held =
        with_boxes J g.source g.start_enabled g.boxes _
          (λ slaves m. show_box-Matching J item.item_text item.checked m) inv.held;
    labelled = inv.labelled;
    quiet = inv.quiet;
  }
  Step-Inv w file_name {g = g} inv (Step.data_changed source slaves at_source alike fits h) =
      record {
        held = elim inv.held [
          | inl (empty, off) ↦ absurd (ground (arith, empty, at_source))
          | inr (s, at_s, on, m) ↦ inr (
            s,
            at_s,
            on,
            handle_data_changed-Matching g.units_checked m
                (subst (λ x. Alike (slaves_of J x) slaves)
                  (some-injective _ _ (sym at_source ∙ at_s)) alike)
                fits h,
          )
        ];
        labelled = inv.labelled;
        quiet = inv.quiet;
      }

  pub Reach-Inv :
      (w : World J) (file_name : Text → Text) {interfaces : List Text} {o : Options} {g : Window J}
      → Reach J w file_name interfaces o g
      → Inv J g
  Reach-Inv w file_name {interfaces = interfaces} {o = o} Reach.opened =
      configure_window-Inv file_name o _ (new_window-Inv J interfaces)
  Reach-Inv w file_name {interfaces = interfaces} {o = o} (Reach.opened_started on h) =
      start_window-Inv w _ (configure_window-Inv file_name o _ (new_window-Inv J interfaces)) h
  Reach-Inv w file_name (Reach.later r step) = Step-Inv w file_name (Reach-Inv w file_name r) step
