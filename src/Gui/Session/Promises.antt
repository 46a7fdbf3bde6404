-- ===== src/Gui/Session/Promises.antt =====
-- What the graphical UI promises in every window that can be reached.
use kddv.Base.{
  ◌≡◌, refl, sym, ◌∙◌, subst, ◌⊎◌, inl, inr, true, false, Bool-cases, some, some-injective, List,
  [], ◌∷◌, All, arith,
}
use kddv.Text.{Text, str_eq, is_empty}
use kddv.Json.{JsonLib}
use kddv.Slave.{EthercatSlave}
use kddv.Slave.Image.{Fits}
use kddv.Feed
use kddv.Feed.{threads_run, World, Source, slaves_of}
use kddv.CommandLine.{Options}
use kddv.Gui.Widgets.{GroupBox}
use kddv.Gui.Labels.{handle_data_changed}
use kddv.Gui.Labels.Faithful.{Displayed, handle_data_changed-Displayed}
use kddv.Gui.Window.{Window, start_label, stop_label, reading, handle_start}
use kddv.Gui.Session.{Alike, Reach}
use kddv.Gui.Session.Sound.{Held, Labelled}
use kddv.Gui.Session.Values.{Matching-Alike}
use kddv.Gui.Session.Reached.{Reach-Inv}

-- A click on `Start` either turns the button to `Stop`, or shows one message and leaves it; a
-- click on `Stop` turns it to `Start`.
abbrev pub Turned : Text → Text → List Text → Type 0
Turned before after messages =
    ((before ≡ start_label) × (after ≡ stop_label) × (messages ≡ []))
    ⊎ ((before ≡ start_label) × (after ≡ start_label) × ((m : Text) × (messages ≡ m ∷ [])))
    ⊎ ((before ≡ stop_label) × (after ≡ start_label) × (messages ≡ []))

module _ (J : JsonLib) (w : World J) where
  reading-Turned :
      (g : Window J) (s : Source J) (error_msg : Text)
      → g.start_text ≡ start_label
      → Turned g.start_text (reading J w g s error_msg).0.start_text (reading J w g s error_msg).1
  unfolding reading
  reading-Turned g s error_msg h = elim (Bool-cases (is_empty error_msg)) [
    | inl e ↦ rw e (inl (h, refl, refl))
    | inr e ↦ rw e (inr (inl (h, h, (error_msg, refl))))
  ]

module _ (J : JsonLib) (w : World J) (file_name : Text → Text) {interfaces : List Text}
    {o : Options} where
  -- After any clicks, choices and data: the start button is enabled exactly when there is a source,
  -- which has a box with labels for each of its slaves, and slaves can be discovered exactly while
  -- the start button says `Start`.
  pub window_state :
      (g : Window J)
      → Reach J w file_name interfaces o g
      → Held J g.source g.start_enabled g.boxes × Labelled J g.start_text g.discover_enabled
  window_state g r = let inv = Reach-Inv J w file_name r in (inv.held, inv.labelled)

  -- In every window that can be reached the source has a joinable thread only while the button says
  -- `Stop` and slaves cannot be discovered: `start` never assigns to a `std::thread` that is
  -- joinable, which would end the program, and a discovery never drops a source whose threads run.
  pub threads_apart :
      (g : Window J)
      → Reach J w file_name interfaces o g
      → (threads_run J g.source ≡ false)
        ⊎ ((g.start_text ≡ stop_label) × (g.discover_enabled ≡ false))
  threads_apart g r =
      let inv = Reach-Inv J w file_name r in
      elim inv.quiet [
        | inr off ↦ inl off
        | inl stops ↦ elim inv.labelled [
          | inl (starts, _) ↦ absurd (ground (arith, starts, stops))
          | inr (_, disabled) ↦ inr (stops, disabled)
        ]
      ]

  -- The start button can be clicked while it is enabled: no click dereferences a null pointer.
  pub start_click :
      (g : Window J)
      → Reach J w file_name interfaces o g
      → g.start_enabled ≡ true
      → (g' : Window J) × (messages : List Text) × (handle_start J w g ≡ some (g', messages))
        × Turned g.start_text g'.start_text messages
  unfolding handle_start str_eq
  start_click g r on =
      let inv = Reach-Inv J w file_name r in
      elim inv.held [
        | inl (_, off) ↦ absurd (ground (arith, on, off))
        | inr (s, at_source, _, matching) ↦ elim inv.labelled [
          | inl (says_start, enabled) ↦
              let test : str_eq g.start_text start_label ≡ true = rw says_start refl in
              let tried = Feed.start J w s [] in
              (
                (reading J w g tried.0 tried.1).0,
                (reading J w g tried.0 tried.1).1,
                rw (test, at_source) refl,
                reading-Turned J w g tried.0 tried.1 says_start,
              )
          | inr (says_stop, disabled) ↦
              let not_start : str_eq g.start_text start_label ≡ false = rw says_stop refl in
              let test : str_eq g.start_text stop_label ≡ true = rw says_stop refl in
              (
                record g {
                  source = some (Feed.stop J s);
                  discover_enabled = true;
                  start_text = start_label;
                },
                [],
                rw (not_start, test, at_source) refl,
                inr (inr (says_stop, refl, refl)),
              )
        ]
      ]

  -- New values of the slaves of the source, in range, are shown without an exception or a read out
  -- of range, each in the label of its variable.
  pub data_shown :
      (g : Window J) (s : Source J) (slaves : List EthercatSlave)
      → Reach J w file_name interfaces o g
      → g.source ≡ some s
      → Alike (slaves_of J s) slaves
      → All (λ x. Fits x.device) slaves
      → (boxes : List GroupBox) × (handle_data_changed g.units_checked g.boxes slaves ≡ some boxes)
        × Displayed g.units_checked g.boxes slaves boxes
  data_shown g s slaves r at_source alike fits =
      let inv = Reach-Inv J w file_name r in
      elim inv.held [
        | inl (empty, off) ↦ absurd (ground (arith, empty, at_source))
        | inr (s', at_s, on, matching) ↦
            handle_data_changed-Displayed g.units_checked
              (Matching-Alike matching (
                subst (λ x. Alike (slaves_of J x) slaves)
                  (some-injective _ _ (sym at_source ∙ at_s)) alike))
              fits
      ]
