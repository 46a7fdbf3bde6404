-- ===== src/Tui/Session.antt =====
-- `TUI::start` of src/tui.cpp: the source, the slaves, and the loop over the keys until `q`.
pub mod Ends
use kddv.Base.{
  ◌≡◌, Bool, true, false, Option, none, some, ◌>>=◌, List, [], ◌∷◌, ◌++◌, if◌then◌else◌, length,
}
use kddv.Text.{Text, text, is_empty, to_string}
use kddv.Json.{JsonLib}
use kddv.Feed
use kddv.Feed.{World, Source, slaves_of, set_zmq_publish, Chosen, ready, refused, null_source}
use kddv.Tui.{Tui, Key, press}
use kddv.Tui.Start.{choose_source}

-- What `getch` gives; it does not wait, so that mostly no key is pressed.
pub data Getch : Type 0 where
  q : Getch
  pressed : Key → Getch

-- The loop at the end: the UI, and whether `q` ended it.
unfoldable pub key_loop : List Getch → Tui → Tui × Bool
key_loop [] t = (t, false)
key_loop (q ∷ keys) t = (t, true)
key_loop (pressed k ∷ keys) t = key_loop keys (press k t)

-- The loop after an error.
unfoldable pub error_loop : List Getch → Bool
error_loop [] = false
error_loop (q ∷ keys) = true
error_loop (pressed k ∷ keys) = error_loop keys

module _ (J : JsonLib) where
  -- Where `start` stands after the keys: the status lines, the source that is left, and
  -- whether it has returned. After an error no source is used any more.
  pub record Stand : Type 0 where
    pub tui : Tui
    pub statuses : List Text
    pub source : Option (Source J)
    pub returned : Bool

  unfoldable pub give_up : Tui → List Getch → List Text → Stand
  unfolding error_loop
  give_up t keys statuses = record {
    tui = t;
    statuses = statuses;
    source = none;
    returned = error_loop keys;
  }

  unfoldable pub until_quit : Tui → List Getch → List Text → Source J → Stand
  unfolding key_loop
  until_quit t keys statuses source =
      let (t', quit) = key_loop keys t in
      record {
        tui = t';
        statuses = statuses;
        source = some (if quit then Feed.stop J source else source);
        returned = quit;
      }

  unfoldable pub found_status : Source J → Text
  found_status source = text "Found " ++ (to_string (length (slaves_of J source)) ++ text " slaves")

  module _ (w : World J) where
    unfoldable pub begin_found : Tui → List Getch → Source J → Stand
    unfolding give_up until_quit found_status
    begin_found t keys source =
        let (source', error_msg) = Feed.start J w source [] in
        if is_empty error_msg
        then until_quit t keys (found_status source ∷ []) source'
        else give_up t keys (found_status source ∷ error_msg ∷ [])

    unfoldable pub start_with : Tui → List Getch → Chosen J → Option Stand
    unfolding begin_found give_up
    start_with t keys (refused error_msg) = some (give_up t keys (error_msg ∷ []))
    start_with t keys null_source = none
    start_with t keys (ready source) = do
      (source', error_msg) ← Feed.get_slaves J w (set_zmq_publish J t.enable_zmq source) []
      some (
          if is_empty error_msg
          then begin_found t keys source'
          else give_up t keys (error_msg ∷ []))

    unfoldable pub start : Tui → List Getch → Option Stand
    unfolding choose_source start_with
    start t keys = do
      chosen ← choose_source J w.open_file w.open_interface w.files t
      start_with t keys chosen
