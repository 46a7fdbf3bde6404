-- ===== src/Examples/Quitting.antt =====
-- The terminal UI from its start to `q`, with a drive on the bus behind `eth0`.
use kddv.Base.{◌≡◌, refl, true, inl, inr, some, List, [], ◌∷◌, arith}
use kddv.Text.{text, str_eq}
use kddv.Feed
use kddv.Feed.{World}
use kddv.Master
use kddv.CommandLine.Ready.{Ready}
use kddv.CommandLine.Spelling.{spell, options-spell}
use kddv.Sniffer.Setup.{missing}
use kddv.Tui.{configure, left, right}
use kddv.Tui.Start.{choose_source}
use kddv.Gui.Window.{choose_for}
use kddv.Gui.Agreement.{choose_source_agrees}
use kddv.Text.Keys.{contains}
use kddv.Tui.Session.{Getch, q, pressed}
use kddv.Examples.JsonModel.{json}
use kddv.Examples.Clicking.{world, options, configured_window}
use kddv.Examples.Drawing.{tui}

-- No PCAP file opens, and there is no config file.
abbrev bare_world : World json
bare_world = record world { open_file = λ f. some (text "No such file"); files = λ f. missing }

options-Ready : Ready options
options-Ready = inl (refl, λ e. ground arith)

abbrev keys : List Getch
keys = pressed right ∷ pressed left ∷ q ∷ pressed right ∷ []

listed : contains options.network_interface (text "lo" ∷ text "eth0" ∷ []) ≡ true
unfolding contains str_eq
listed = refl

choose_source_agrees_example :
    choose_for json world configured_window.checked_button configured_window
    ≡ choose_source json world.open_file world.open_interface world.files (configure options tui)
choose_source_agrees_example =
    choose_source_agrees json world (λ p. p) (spell options) options tui
      (text "lo" ∷ text "eth0" ∷ []) (options-spell options options-Ready).0 (inr listed)
      (λ e. ground arith)
