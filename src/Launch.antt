-- ===== src/Launch.antt =====
-- `main` of src/tui_main.cpp and of src/gui_main.cpp up to the UI: the command line and the publisher.
use kddv.Base.{◌≡◌, refl, ap, ◌∙◌, Option, none, some, List}
use kddv.Text.{Text}
use kddv.CommandLine.{
  Options, defaults, Failure, Outcome, exit_1, accepted, read_arguments, check_required, set_start,
  gui_options,
}
use kddv.CommandLine.Ready.{Ready}
use kddv.CommandLine.Spelling.{spell, spell_read, options-spell, check_required_passes}
use kddv.Publisher.{Zmq, new_publisher}

module _ (Z : Zmq) where
  -- How `main` comes to the UI: it returns 1, an exception of libzmq ends the program, or it has the
  -- options and the publisher for the UI.
  pub data Launch : Type 0 where
    returned_1 : Failure → Launch
    uncaught : Launch
    launched : Options → Z.Socket → Launch

  -- What follows the publisher, where it could be made.
  abbrev with_publisher : Option Z.Socket → (Z.Socket → Launch) → Launch
  with_publisher none next = uncaught
  with_publisher (some publisher) next = next publisher

  abbrev or_return : Outcome → (Options → Launch) → Launch
  or_return (exit_1 e) next = returned_1 e
  or_return (accepted o) next = next o

  -- The TUI binds the port before it looks at what the options leave out.
  unfoldable pub tui_main : List Text → Launch
  tui_main args = or_return (read_arguments set_start defaults args) (λ o.
      with_publisher (new_publisher Z o.zmq_port)
        (λ publisher. or_return (check_required o) (λ checked. launched checked publisher)))

  unfoldable pub gui_main : List Text → Launch
  gui_main args =
      or_return (gui_options args)
        (λ o. with_publisher (new_publisher Z o.zmq_port) (λ publisher. launched o publisher))

  -- What the options ask for: the publisher on their port.
  abbrev pub launch_of : Options → Launch
  launch_of o = with_publisher (new_publisher Z o.zmq_port) (λ publisher. launched o publisher)

  -- On ready options, written out as a command line, both programs come to their UI with exactly these
  -- options, `--start` included, and with a publisher on the port of the options; where libzmq cannot
  -- bind that port, both end with its exception.
  pub mains-spell :
      (o : Options)
      → Ready o
      → (tui_main (spell o) ≡ launch_of o) × (gui_main (spell o) ≡ launch_of o)
  unfolding tui_main gui_main set_start
  mains-spell o ready =
      let checked : Outcome → Launch = λ c.
        with_publisher (new_publisher Z o.zmq_port)
          (λ publisher. or_return c (λ o'. launched o' publisher)) in
      let read_by_tui : Options → Launch = λ o'.
        with_publisher (new_publisher Z o'.zmq_port)
          (λ publisher. or_return (check_required o') (λ o''. launched o'' publisher)) in
      (
        ap (λ m. or_return m read_by_tui) (spell_read set_start o ready (λ p. refl))
            ∙ ap checked (check_required_passes o ready),
        ap (λ m. or_return m launch_of) (options-spell o ready).1,
      )
