-- ===== src/Tui/Session/Ends.antt =====
-- How `TUI::start` of src/tui.cpp ends.
use kddv.Base.{◌≡◌, Bool, true, false, ◌&&◌, List, [], ◌∷◌}
use kddv.Text.{Text}
use kddv.Json.{JsonLib}
use kddv.Feed
use kddv.Feed.{threads_run, ethercat_master, packet_sniffer}
use kddv.Tui.{Tui}
use kddv.Tui.Session.{Getch, q, pressed, Stand}

abbrev pub has_quit : List Getch → Bool
has_quit [] = false
has_quit (q ∷ keys) = true
has_quit (pressed k ∷ keys) = has_quit keys

module _ (J : JsonLib) where
  pub record Ended (keys : List Getch) (stand : Stand J) : Type 0 where
    pub returns_at_quit : stand.returned ≡ has_quit keys
    pub joined : (stand.returned && threads_run J stand.source) ≡ false
