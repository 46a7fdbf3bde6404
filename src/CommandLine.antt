-- ===== src/CommandLine.antt =====
-- src/tui_main.cpp and src/gui_main.cpp: the options on the command line. The two loops differ in `--start` only, which is an
-- argument of the loop here. Every error prints a message and makes `main` return 1.
mod Syntax
pub mod Loop
pub mod Ready
pub mod Started
pub mod Spelling
pub mod Usage
use kddv.Base.{Bool, true, List, [], ◌∷◌, if◌then◌else◌}
use kddv.Text.{Text, text, str_eq, is_empty}
unfoldable pub use Syntax.*

-- What a word does that no value follows.
unfoldable pub lone_word : (Options → Outcome) → Options → Word → Outcome
lone_word on_start o (takes_value v) = exit_1 missing_value
lone_word on_start o start_word = on_start o
lone_word on_start o publish_word = accepted (record o { publish_zmq = true })
lone_word on_start o other_word = exit_1 unknown_option

-- One round of the loop where a further argument follows: what comes after it (`i += 1`), or from
-- it on.
unfoldable pub read_word :
    (Options → Outcome)
    → Options
    → Word
    → Text
    → (Options → Outcome)
    → (Options → Outcome)
    → Outcome
unfolding lone_word set_value
read_word on_start o (takes_value v) next skip_next keep_next =
    and_then (set_value v next o) skip_next
read_word on_start o start_word next skip_next keep_next =
    and_then (lone_word on_start o start_word) keep_next
read_word on_start o publish_word next skip_next keep_next =
    and_then (lone_word on_start o publish_word) keep_next
read_word on_start o other_word next skip_next keep_next =
    and_then (lone_word on_start o other_word) keep_next

-- The loop over `argv[1]`, `argv[2]`, and so on, with what `--start` does.
unfoldable pub read_arguments : (Options → Outcome) → Options → List Text → Outcome
unfolding lone_word read_word word_of
read_arguments on_start o [] = accepted o
read_arguments on_start o (arg ∷ []) = lone_word on_start o (word_of arg)
read_arguments on_start o (arg ∷ next ∷ rest) =
    read_word on_start o (word_of arg) next (λ after. read_arguments on_start after rest)
      (λ after. read_arguments on_start after (next ∷ rest))

-- The checks on the source and on what it needs, in the order of the code.
unfoldable pub check_required : Options → Outcome
check_required o =
    if is_empty o.input_source
    then exit_1 no_source
    else if str_eq o.input_source (text "ecat")
    then if is_empty o.network_interface then exit_1 no_interface else accepted o
    else if str_eq o.input_source (text "sniffer")
    then if is_empty o.network_interface
      then exit_1 no_interface
      else if is_empty o.config_file
      then exit_1 no_config
      else accepted o
    else if str_eq o.input_source (text "pcap")
    then if is_empty o.config_file
      then exit_1 no_config
      else if is_empty o.pcap_file
      then exit_1 no_pcap
      else accepted o
    else accepted o

unfoldable pub set_start : Options → Outcome
set_start o = accepted (record o { start = true })

-- `main` of the TUI up to the window: `--start` sets a variable that nothing reads, and the checks
-- come after the loop.
unfoldable pub tui_options : List Text → Outcome
unfolding set_start read_arguments check_required
tui_options args = and_then (read_arguments set_start defaults args) check_required

-- `--start` of the GUI: the checks come first, on what the arguments before it have set.
unfoldable pub start_checked : Options → Outcome
unfolding set_start check_required
start_checked o = and_then (check_required o) set_start

-- `main` of the GUI up to the window.
unfoldable pub gui_options : List Text → Outcome
unfolding start_checked read_arguments
gui_options args = read_arguments start_checked defaults args
