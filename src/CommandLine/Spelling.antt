-- ===== src/CommandLine/Spelling.antt =====
-- The command line of given options, which reads back as these options.
use kddv.Base.{
  ◌≡◌, ◌≢◌, refl, ap, ◌∙◌, inl, inr, Bool, true, false, List, [], ◌∷◌, ◌++◌, arith, if◌then◌else◌,
}
use kddv.Text.{Text, text, str_eq, is_empty}
use kddv.CommandLine.{
  Options, defaults, Outcome, accepted, and_then, word_of, is_source, set_value, lone_word,
  read_word, read_arguments, check_required, set_start, start_checked, tui_options, gui_options,
}
use kddv.CommandLine.Loop.{read_arguments_append}
use kddv.CommandLine.Ready.{Ready}

-- The options with a value, and the two flags, `--start` last.
values_of : Options → List Text
values_of o =
    text "--src"
    ∷ o.input_source
    ∷ text "--iface"
    ∷ o.network_interface
    ∷ text "--config"
    ∷ o.config_file
    ∷ text "--pcap"
    ∷ o.pcap_file
    ∷ text "--zmq_port"
    ∷ o.zmq_port
    ∷ []

flags_of : Bool → Bool → List Text
flags_of publish start =
    (if publish then text "--publish_zmq" ∷ [] else [])
    ++ (if start then text "--start" ∷ [] else [])

unfoldable pub spell : Options → List Text
unfolding values_of flags_of
spell o = values_of o ++ flags_of o.publish_zmq o.start

source_of_Ready : (o : Options) → Ready o → is_source o.input_source ≡ true
unfolding is_source str_eq
source_of_Ready o (inl (e, _)) = rw e refl
source_of_Ready o (inr (inl (e, _, _))) = rw e refl
source_of_Ready o (inr (inr (e, _, _))) = rw e refl

pub named : (t : Text) → t ≢ [] → is_empty t ≡ false
named [] h = ground arith
named (c ∷ t) h = refl

pub check_required_passes : (o : Options) → Ready o → check_required o ≡ accepted o
unfolding check_required str_eq
check_required_passes o (inl (e, has_iface)) = rw (e, named _ has_iface) refl
check_required_passes o (inr (inl (e, has_iface, has_config))) =
    rw (e, named _ has_iface, named _ has_config) refl
check_required_passes o (inr (inr (e, has_config, has_file))) =
    rw (e, named _ has_config, named _ has_file) refl

values_read :
    (on_start : Options → Outcome) (o : Options)
    → is_source o.input_source ≡ true
    → read_arguments on_start defaults (values_of o)
      ≡ accepted (record o { start = false; publish_zmq = false })
unfolding read_arguments read_word word_of str_eq set_value values_of
values_read on_start o known = rw known refl

flags_read :
    (on_start : Options → Outcome) (o : Options) (publish start : Bool)
    → ((p : Bool)
        → on_start (record o { start = false; publish_zmq = p })
          ≡ accepted (record o { start = true; publish_zmq = p }))
    → read_arguments on_start
        (record o { start = false; publish_zmq = false })
        (flags_of publish start)
      ≡ accepted (record o { start = start; publish_zmq = publish })
unfolding read_arguments read_word lone_word word_of str_eq flags_of
flags_read on_start o false false starts = refl
flags_read on_start o false true starts = starts false
flags_read on_start o true false starts = refl
flags_read on_start o true true starts = starts true

pub spell_read :
    (on_start : Options → Outcome) (o : Options)
    → Ready o
    → ((p : Bool)
        → on_start (record o { start = false; publish_zmq = p })
          ≡ accepted (record o { start = true; publish_zmq = p }))
    → read_arguments on_start defaults (spell o) ≡ accepted o
unfolding spell
spell_read on_start o ready starts =
    read_arguments_append on_start defaults (values_of o) (flags_of o.publish_zmq o.start)
      (values_read on_start o (source_of_Ready o ready))
    ∙ flags_read on_start o o.publish_zmq o.start starts

-- Ready options, written out as a command line, are what the TUI and the GUI read from it: a value
-- is taken as it stands, also where it is empty or spelled like an option.
pub options-spell :
    (o : Options)
    → Ready o
    → (tui_options (spell o) ≡ accepted o) × (gui_options (spell o) ≡ accepted o)
unfolding tui_options gui_options set_start start_checked
options-spell o ready = (
  ap (λ m. and_then m check_required) (spell_read set_start o ready (λ p. refl))
      ∙ check_required_passes o ready,
  spell_read start_checked o ready (λ p.
      ap (λ m. and_then m set_start)
        (check_required_passes (record o { start = false; publish_zmq = p }) ready)),
)
