-- ===== src/Gui/Session/Sound.antt =====
-- What holds in every window that can be reached.
use kddv.Base.{
  ◌≡◌, refl, sym, ap, ◌∙◌, subst, ◌⊎◌, inl, inr, Bool, true, false, Bool-cases, Option, none, some,
  some-injective, List, arith,
}
use kddv.Text.{Text, str_eq}
use kddv.Json.{JsonLib}
use kddv.Slave.{EthercatSlave}
use kddv.Feed
use kddv.Feed.Quiet.{threads_run-set_zmq_publish}
use kddv.Feed.{
  threads_run, EthercatMaster, after_start, World, Source, ethercat_master, packet_sniffer,
  slaves_of, set_zmq_publish, Chosen, ready, refused, null_source,
}
use kddv.Master.{Started, failed, idle, running}
use kddv.Gui.Widgets.{GroupBox}
use kddv.Gui.Labels.Faithful.{Matching}
use kddv.Gui.Window.{
  Input, ethercat_button, sniff_button, file_button, Window, new_window, start_label, stop_label,
}
use kddv.Gui.Controls.{
  enable_for, check_button, publish_on, show_box, handle_input_button, handle_zmq_check_box,
}

-- A box for each slave, whatever its labels show.
module _ (J : JsonLib) where
  -- Without a source the start button is disabled; with one it is enabled, and there is a box with
  -- labels for each slave of the source.
  abbrev pub Held : Option (Source J) → Bool → List GroupBox → Type 0
  Held source start_enabled boxes =
      ((source ≡ none) × (start_enabled ≡ false))
      ⊎ ((s : Source J) × (source ≡ some s)
          × (start_enabled ≡ true)
          × Matching boxes (slaves_of J s))

  -- Slaves can be discovered exactly while the other button says `Start`.
  abbrev pub Labelled : Text → Bool → Type 0
  Labelled start_text discover_enabled =
      ((start_text ≡ start_label) × (discover_enabled ≡ true))
      ⊎ ((start_text ≡ stop_label) × (discover_enabled ≡ false))

  -- While the button says `Start`, no thread of the source is joinable.
  abbrev pub Quiet : Option (Source J) → Text → Type 0
  Quiet source start_text = (start_text ≡ stop_label) ⊎ (threads_run J source ≡ false)

  pub record Inv (g : Window J) : Type 0 where
    pub held : Held g.source g.start_enabled g.boxes
    pub labelled : Labelled g.start_text g.discover_enabled
    pub quiet : Quiet g.source g.start_text

  pub new_window-Inv : (interfaces : List Text) → Inv (new_window J interfaces)
  unfolding new_window
  new_window-Inv interfaces = record {
    held = inl (refl, refl);
    labelled = inl (refl, refl);
    quiet = inr refl;
  }

  enable_for-Inv : (i : Option Input) (g : Window J) → Inv g → Inv (enable_for J i g)
  unfolding enable_for
  enable_for-Inv none g inv = record { held = inv.held; labelled = inv.labelled; quiet = inv.quiet }
  enable_for-Inv (some ethercat_button) g inv = record {
    held = inv.held;
    labelled = inv.labelled;
    quiet = inv.quiet;
  }
  enable_for-Inv (some sniff_button) g inv = record {
    held = inv.held;
    labelled = inv.labelled;
    quiet = inv.quiet;
  }
  enable_for-Inv (some file_button) g inv = record {
    held = inv.held;
    labelled = inv.labelled;
    quiet = inv.quiet;
  }

  pub check_button-Inv : (i : Option Input) (g : Window J) → Inv g → Inv (check_button J i g)
  unfolding check_button handle_input_button
  check_button-Inv none g inv = inv
  check_button-Inv (some i) g inv =
      enable_for-Inv (some i) (record g { checked_button = some i })
        (record { held = inv.held; labelled = inv.labelled; quiet = inv.quiet })

  -- The slaves stay when publishing is switched, and when the source starts or stops.
  slaves_of-set_zmq_publish :
      (value : Bool) (s : Source J) → slaves_of J (set_zmq_publish J value s) ≡ slaves_of J s
  slaves_of-set_zmq_publish value (ethercat_master m) = refl
  slaves_of-set_zmq_publish value (packet_sniffer s) = refl

  pub slaves_of-stop : (s : Source J) → slaves_of J (Feed.stop J s) ≡ slaves_of J s
  slaves_of-stop (ethercat_master m) = refl
  slaves_of-stop (packet_sniffer s) = refl

  slaves_of-after_start :
      (m : EthercatMaster) (error : Text) (r : Started)
      → slaves_of J (after_start J m error r).0 ≡ m.slaves
  unfolding after_start
  slaves_of-after_start m error (failed e) = refl
  slaves_of-after_start m error (idle miscounted) = refl
  slaves_of-after_start m error (running miscounted) = refl

  pub slaves_of-start :
      (w : World J) (s : Source J) (error : Text)
      → slaves_of J (Feed.start J w s error).0 ≡ slaves_of J s
  unfolding Feed.start
  slaves_of-start w (ethercat_master m) error = slaves_of-after_start m error _
  slaves_of-start w (packet_sniffer s) error = refl

  pub slaves_of-Held :
      {boxes : List GroupBox} (s s' : Source J)
      → slaves_of J s' ≡ slaves_of J s
      → Matching boxes (slaves_of J s)
      → Held (some s') true boxes
  slaves_of-Held {boxes = boxes} s s' same matching =
      inr (s', refl, refl, subst (Matching boxes) (sym same) matching)

  publish_on-Held :
      (checked : Bool) (source : Option (Source J)) (start_enabled : Bool) (boxes : List GroupBox)
      → Held source start_enabled boxes
      → Held (publish_on J checked source) start_enabled boxes
  unfolding publish_on
  publish_on-Held checked none start_enabled boxes (inl (e, off)) = inl (refl, off)
  publish_on-Held checked none start_enabled boxes (inr (s, e, on, m)) = ground arith
  publish_on-Held checked (some s) start_enabled boxes (inl (e, off)) = ground arith
  publish_on-Held checked (some s) start_enabled boxes (inr (s', e, on, m)) = inr (
    set_zmq_publish J checked s,
    refl,
    on,
    subst (Matching boxes)
        (ap (slaves_of J) (sym (some-injective _ _ e)) ∙ sym (slaves_of-set_zmq_publish checked s))
        m,
  )

  publish_on-Quiet :
      (checked : Bool) (source : Option (Source J)) (start_text : Text)
      → Quiet source start_text
      → Quiet (publish_on J checked source) start_text
  unfolding publish_on
  publish_on-Quiet checked source start_text (inl stops) = inl stops
  publish_on-Quiet checked none start_text (inr off) = inr refl
  publish_on-Quiet checked (some s) start_text (inr off) =
      inr (threads_run-set_zmq_publish J checked s ∙ off)

  pub handle_zmq_check_box-Inv : (g : Window J) → Inv g → Inv (handle_zmq_check_box J g)
  unfolding handle_zmq_check_box
  handle_zmq_check_box-Inv g inv = record {
    held = publish_on-Held g.publish_checked g.source g.start_enabled g.boxes inv.held;
    labelled = inv.labelled;
    quiet = publish_on-Quiet g.publish_checked g.source g.start_text inv.quiet;
  }

  pub show_box-Matching :
      (name : Text) (checked : Bool) {boxes : List GroupBox} {slaves : List EthercatSlave}
      → Matching boxes slaves
      → Matching (show_box J name checked boxes) slaves
  unfolding show_box
  show_box-Matching name checked Matching.no_boxes = Matching.no_boxes
  show_box-Matching name checked (Matching.box b s rx tx made sized more) =
      elim (Bool-cases (str_eq b.object_name name)) [
        | inl e ↦ rw e (Matching.box _ s rx tx made sized more)
        | inr e ↦ rw e (Matching.box b s rx tx made sized (show_box-Matching name checked more))
      ]

  pub with_boxes :
      (source : Option (Source J)) (start_enabled : Bool) (boxes boxes' : List GroupBox)
      → ((slaves : List EthercatSlave) → Matching boxes slaves → Matching boxes' slaves)
      → Held source start_enabled boxes
      → Held source start_enabled boxes'
  with_boxes source start_enabled boxes boxes' keep (inl h) = inl h
  with_boxes source start_enabled boxes boxes' keep (inr (s, e, on, m)) =
      inr (s, e, on, keep (slaves_of J s) m)
