-- ===== src/Gui/Session/Safe.antt =====
-- Clicks on the two buttons, in a window that is sound.
use kddv.Base.{
  sym, ◌∙◌, ◌||◌, none, false, ◌≡◌, refl, ap, subst, inl, inr, true, false, Bool-cases, Option,
  some, some-injective, >>=-eq-some, List, [], ◌∷◌, arith,
}
use kddv.Text.{Text, str_eq, is_empty}
use kddv.Json.{JsonLib}
use kddv.Feed
use kddv.Feed.Quiet.{
  threads_run-stop, threads_run-set_zmq_publish, threads_run-get_slaves, start_failed, Unstarted,
  configured-Unstarted,
}
use kddv.Feed.{
  threads_run, World, Source, slaves_of, set_zmq_publish, Chosen, ready, refused, null_source,
}
use kddv.Sniffer.Setup.{constructor_error}
use kddv.Gui.Labels.Faithful.{Matching, make_box-Matching}
use kddv.Gui.Window.{
  Input, ethercat_button, sniff_button, file_button, no_interface_label, Window, start_label,
  stop_label, Handled, reading, discovered, start_reading, stop_reading, handle_start, cleared,
  choose_for, discover_with, handle_discover,
}
use kddv.Gui.Session.Sound.{
  Held, Labelled, Quiet, Inv, slaves_of-Held, slaves_of-start, slaves_of-stop,
}

module _ (J : JsonLib) (w : World J) where
  -- A click that is handled, with a window that is sound again.
  unfoldable pub Handles : Handled J w → Type 0
  Handles h = (g' : Window J) × (messages : List Text) × (h ≡ some (g', messages)) × Inv J g'

  reading-Inv :
      (g : Window J) (s : Source J) (error_msg : Text)
      → Held J (some s) g.start_enabled g.boxes
      → Labelled J g.start_text g.discover_enabled
      → (is_empty error_msg ≡ false → Quiet J (some s) g.start_text)
      → Inv J (reading J w g s error_msg).0
  unfolding reading
  reading-Inv g s error_msg held labelled quiet = elim (Bool-cases (is_empty error_msg)) [
    | inl e ↦ rw e (record { held = held; labelled = inr (refl, refl); quiet = inl refl })
    | inr e ↦ rw e (record { held = held; labelled = labelled; quiet = quiet e })
  ]

  start_failed-Quiet :
      (g : Window J) (s : Source J)
      → g.source ≡ some s
      → Quiet J g.source g.start_text
      → is_empty (Feed.start J w s []).1 ≡ false
      → Quiet J (some (Feed.start J w s []).0) g.start_text
  start_failed-Quiet g s at_source (inl stops) wrong = inl stops
  start_failed-Quiet g s at_source (inr off) wrong =
      inr (start_failed J w s wrong ∙ ap (threads_run J) (sym at_source) ∙ off)

  start_reading-Handles :
      (g : Window J) (s : Source J)
      → g.source ≡ some s
      → g.start_enabled ≡ true
      → Matching g.boxes (slaves_of J s)
      → Labelled J g.start_text g.discover_enabled
      → Quiet J g.source g.start_text
      → Handles (start_reading J w g)
  unfolding start_reading Handles
  start_reading-Handles g s at_source on matching labelled quiet =
      let tried = Feed.start J w s [] in
      let kept : Held J (some tried.0) g.start_enabled g.boxes =
        rw on (slaves_of-Held J s tried.0 (slaves_of-start J w s []) matching) in
      (
        (reading J w g tried.0 tried.1).0,
        (reading J w g tried.0 tried.1).1,
        rw at_source refl,
        reading-Inv g tried.0 tried.1 kept labelled (start_failed-Quiet g s at_source quiet),
      )

  stop_reading-Handles :
      (g : Window J) (s : Source J)
      → g.source ≡ some s
      → g.start_enabled ≡ true
      → Matching g.boxes (slaves_of J s)
      → Handles (stop_reading J w g)
  unfolding stop_reading Handles
  stop_reading-Handles g s at_source on matching = (
    record g { source = some (Feed.stop J s); discover_enabled = true; start_text = start_label },
    [],
    rw at_source refl,
    record {
      held = rw on (slaves_of-Held J s (Feed.stop J s) (slaves_of-stop J s) matching);
      labelled = inl (refl, refl);
      quiet = inr (threads_run-stop J s);
    },
  )

  pub handle_start-Handles :
      (g : Window J) → Inv J g → g.start_enabled ≡ true → Handles (handle_start J w g)
  unfolding handle_start str_eq
  handle_start-Handles g inv on = elim inv.held [
    | inl (_, off) ↦ absurd (ground (arith, on, off))
    | inr (s, at_source, _, matching) ↦ elim inv.labelled [
      | inl (says_start, enabled) ↦
          let test : str_eq g.start_text start_label ≡ true = rw says_start refl in
          rw test (start_reading-Handles g s at_source on matching inv.labelled inv.quiet)
      | inr (says_stop, disabled) ↦
          let not_start : str_eq g.start_text start_label ≡ false = rw says_stop refl in
          let test : str_eq g.start_text stop_label ≡ true = rw says_stop refl in
          rw (not_start, test) (stop_reading-Handles g s at_source on matching)
    ]
  ]

  discovered-Inv :
      (g : Window J) (s : Source J) (error_msg : Text)
      → Inv J g
      → threads_run J (some s) ≡ false
      → Inv J (discovered J w g s error_msg).0
  unfolding discovered
  discovered-Inv g s error_msg inv off = elim (Bool-cases (is_empty error_msg)) [
    | inl e ↦ rw e (record {
      held = inr (s, refl, refl, make_box-Matching (slaves_of J s));
      labelled = inv.labelled;
      quiet = inr off;
    })
    | inr e ↦ rw e inv
  ]

  pub result_is :
      (p : Window J × List Text) {g' : Window J} {messages : List Text}
      → Inv J p.0
      → ◌≡◌ {A = Option (Window J × List Text)} (some p) (some (g', messages))
      → Inv J g'
  result_is p inv h = subst (Inv J) (ap (λ q. q.0) (some-injective _ _ h)) inv

  discover_with-Inv :
      (g : Window J) (chosen : Chosen J) {g' : Window J} {messages : List Text}
      → Inv J g
      → Unstarted J (some chosen)
      → discover_with J w g chosen ≡ some (g', messages)
      → Inv J g'
  unfolding discover_with
  discover_with-Inv g (refused error_msg) inv opened h = result_is (g, error_msg ∷ []) inv h
  discover_with-Inv g null_source inv opened h = ground arith
  discover_with-Inv g (ready source) inv opened h =
      let (p, at_p, end) =
        >>=-eq-some (Feed.get_slaves J w (set_zmq_publish J g.publish_checked source) []) _ h in
      result_is (discovered J w g p.0 p.1)
        (discovered-Inv g p.0 p.1 inv (
          threads_run-get_slaves J w _ [] p at_p
          ∙ threads_run-set_zmq_publish J g.publish_checked source
          ∙ opened))
        end

  choose_for-Unstarted : (b : Option Input) (g : Window J) → Unstarted J (choose_for J w b g)
  unfolding choose_for
  choose_for-Unstarted none g = tt
  choose_for-Unstarted (some ethercat_button) g =
      elim (Bool-cases (is_empty g.current_text || str_eq g.current_text no_interface_label)) [
        | inl e ↦ rw e tt
        | inr e ↦ rw e refl
      ]
  choose_for-Unstarted (some sniff_button) g =
      let error_msg = constructor_error w.open_file w.open_interface g.current_text false [] in
      elim (Bool-cases (is_empty g.current_text || str_eq g.current_text no_interface_label)) [
        | inl a ↦ rw a tt
        | inr a ↦ elim (Bool-cases (is_empty error_msg)) [
          | inr b ↦ rw (a, b) tt
          | inl b ↦ elim (Bool-cases (is_empty g.config_file_name)) [
            | inl c ↦ rw (a, b, c) tt
            | inr c ↦ rw (a, b, c) (configured-Unstarted J w.files g.config_file_name)
          ]
        ]
      ]
  choose_for-Unstarted (some file_button) g =
      let error_msg = constructor_error w.open_file w.open_interface g.pcap_file_name true [] in
      elim (Bool-cases (is_empty g.config_file_name)) [
        | inl a ↦ rw a tt
        | inr a ↦ elim (Bool-cases (is_empty g.pcap_file_name)) [
          | inl b ↦ rw (a, b) tt
          | inr b ↦ elim (Bool-cases (is_empty error_msg)) [
            | inr c ↦ rw (a, b, c) tt
            | inl c ↦ rw (a, b, c) (configured-Unstarted J w.files g.config_file_name)
          ]
        ]
      ]

  pub handle_discover-Inv :
      (g : Window J) {g' : Window J} {messages : List Text}
      → Inv J g
      → handle_discover J w g ≡ some (g', messages)
      → Inv J g'
  unfolding handle_discover
  handle_discover-Inv g inv h =
      let (chosen, at_chosen, end) = >>=-eq-some (choose_for J w g.checked_button g) _ h in
      discover_with-Inv (cleared J w g) chosen
        (record { held = inl (refl, refl); labelled = inv.labelled; quiet = inr refl })
        (subst (Unstarted J) at_chosen (choose_for-Unstarted g.checked_button g)) end
