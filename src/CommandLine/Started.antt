-- ===== src/CommandLine/Started.antt =====
-- `--start` of the GUI, which is checked where it stands.
use kddv.Base.{
  ◌≡◌, refl, sym, ap, ◌∙◌, ◌⊎◌, inl, inr, true, false, List, [], ◌∷◌, ◌++◌, arith, append_assoc,
}
use kddv.Text.{Text, text}
use kddv.Text.Keys.{str_eq_iff}
use kddv.CommandLine.{
  Options, defaults, accepted, and_then, ValueOption, src, iface, config, pcap, port, Word,
  takes_value, start_word, publish_word, other_word, word_of, set_value, lone_word, read_word,
  read_arguments, check_required, set_start, start_checked, gui_options,
}
use kddv.CommandLine.Loop.{and_then-eq-accepted, read_word-cases, read_arguments_append}
use kddv.CommandLine.Ready.{
  Ready, source_ok, set_value_ok, lone_word_ok, check_required-Ready, KeepsSource,
}

start_spelled : (arg : Text) → word_of arg ≡ start_word → arg ≡ text "--start"
unfolding word_of
start_spelled arg h = (str_eq_iff arg (text "--start")).0 (ground arith)

start_checked-KeepsSource : KeepsSource start_checked
unfolding start_checked check_required set_start
start_checked-KeepsSource o o' h = ground arith

-- Only `--start` sets the flag.
set_value_start :
    (v : ValueOption) (value : Text) (o : Options) {mid : Options}
    → set_value v value o ≡ accepted mid
    → mid.start ≡ o.start
unfolding set_value
set_value_start src value o h = ground arith
set_value_start iface value o h = ground arith
set_value_start config value o h = ground arith
set_value_start pcap value o h = ground arith
set_value_start port value o h = ground arith

lone_word_start :
    (o : Options) (w : Word) {mid : Options}
    → lone_word start_checked o w ≡ accepted mid
    → (w ≡ start_word) ⊎ (mid.start ≡ o.start)
unfolding lone_word
lone_word_start o (takes_value v) h = ground arith
lone_word_start o start_word h = inl refl
lone_word_start o publish_word h = inr (ground arith)
lone_word_start o other_word h = ground arith

-- The arguments up to a `--start`, and what they have set, which is ready.
pub StartedAt : Options → List Text → Type 0
StartedAt o args =
    (before : List Text) × (after : List Text) × (mid : Options) × (args
      ≡ before ++ (text "--start" ∷ after))
    × (read_arguments start_checked o before ≡ accepted mid)
    × Ready mid

-- A `--start` found behind some arguments that were read.
behind :
    (o mid : Options) (args rest : List Text)
    → read_arguments start_checked o args ≡ accepted mid
    → StartedAt mid rest
    → StartedAt o (args ++ rest)
unfolding StartedAt
behind o mid args rest h (before, after, at_start, split, reads, ready) = (
  args ++ before,
  after,
  at_start,
  ap (λ r. args ++ r) split ∙ sym (append_assoc args before (text "--start" ∷ after)),
  read_arguments_append start_checked o args before h ∙ reads,
  ready,
)

here :
    (o : Options) (arg : Text) (after : List Text) {mid : Options}
    → source_ok o ≡ true
    → word_of arg ≡ start_word
    → lone_word start_checked o (word_of arg) ≡ accepted mid
    → StartedAt o (arg ∷ after)
unfolding StartedAt start_checked read_arguments lone_word
here o arg after ok is_start h =
    let (checked, passes, then_start) =
      and_then-eq-accepted (check_required o) set_start
        (ap (lone_word start_checked o) (sym is_start) ∙ h) in
    let (_, ready) = check_required-Ready o ok passes in
    ([], after, o, ap (λ a. a ∷ after) (start_spelled arg is_start), refl, ready)

read_one_value :
    (o : Options) (arg next : Text) (v : ValueOption)
    → word_of arg ≡ takes_value v
    → read_arguments start_checked o (arg ∷ next ∷ []) ≡ and_then (set_value v next o) accepted
unfolding read_arguments read_word
read_one_value o arg next v is_v = rw is_v refl

start_found :
    (o : Options) (args : List Text) {final : Options}
    → source_ok o ≡ true
    → o.start ≡ false
    → read_arguments start_checked o args ≡ accepted final
    → final.start ≡ true
    → StartedAt o args
unfolding read_arguments lone_word
start_found o [] ok off h on = ground arith
start_found o (arg ∷ []) ok off h on = elim (lone_word_start o (word_of arg) h) [
  | inl is_start ↦ here o arg [] ok is_start h
  | inr unchanged ↦ ground arith
]
start_found o (arg ∷ next ∷ rest) {final = final} ok off h on =
    elim (read_word-cases start_checked o (word_of arg) next
      (λ x. read_arguments start_checked x rest) (λ x. read_arguments start_checked x (next ∷ rest))
      h) [
        | inl (v, mid, is_v, at_mid, end) ↦
            behind o mid (arg ∷ next ∷ []) rest
              (read_one_value o arg next v is_v ∙ ap (λ m. and_then m accepted) at_mid)
              (start_found mid rest (set_value_ok v next o ok at_mid)
                (set_value_start v next o at_mid ∙ off) end on)
        | inr (mid, at_mid, end) ↦ elim (lone_word_start o (word_of arg) at_mid) [
          | inl is_start ↦ here o arg (next ∷ rest) ok is_start at_mid
          | inr unchanged ↦ behind o mid (arg ∷ []) (next ∷ rest) at_mid (
              start_found mid (next ∷ rest)
                (lone_word_ok start_checked o (word_of arg) start_checked-KeepsSource ok at_mid)
                (unchanged ∙ off) end on)
        ]
      ]

-- The GUI starts reading by itself only where a `--start` stands on its command line, and the
-- arguments before it name a known source and what this source needs. (Arguments
-- behind it may still change the source.)
pub gui_options-StartedAt :
    (args : List Text) (o : Options)
    → gui_options args ≡ accepted o
    → o.start ≡ true
    → StartedAt defaults args
unfolding gui_options source_ok
gui_options-StartedAt args o h on = start_found defaults args refl refl h on
