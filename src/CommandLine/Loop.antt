-- ===== src/CommandLine/Loop.antt =====
-- The argument loop: what a round does, and how a command line splits.
use kddv.Base.{◌≡◌, refl, ◌∙◌, ap, ◌⊎◌, inl, inr, List, [], ◌∷◌, ◌++◌, arith}
use kddv.Text.{Text}
use kddv.CommandLine.{
  Options, Outcome, exit_1, accepted, and_then, Word, takes_value, start_word, publish_word,
  other_word, word_of, unknown_option, ValueOption, set_value, lone_word, read_word, read_arguments,
}

pub and_then-eq-accepted :
    (m : Outcome) (f : Options → Outcome) {o : Options}
    → and_then m f ≡ accepted o
    → (mid : Options) × (m ≡ accepted mid) × (f mid ≡ accepted o)
and_then-eq-accepted (exit_1 e) f h = ground arith
and_then-eq-accepted (accepted mid) f h = (mid, refl, h)

-- A round that is not an error either reads a value or treats a word on its own.
pub read_word-cases :
    (on_start : Options → Outcome) (o : Options) (w : Word) (next : Text)
    (skip_next keep_next : Options → Outcome) {final : Options}
    → read_word on_start o w next skip_next keep_next ≡ accepted final
    → ((v : ValueOption) × (mid : Options) × (w ≡ takes_value v)
        × (set_value v next o ≡ accepted mid)
        × (skip_next mid ≡ accepted final))
      ⊎ ((mid : Options) × (lone_word on_start o w ≡ accepted mid)
          × (keep_next mid ≡ accepted final))
unfolding read_word
read_word-cases on_start o (takes_value v) next skip_next keep_next h =
    let (mid, at_mid, then_final) = and_then-eq-accepted (set_value v next o) skip_next h in
    inl (v, mid, refl, at_mid, then_final)
read_word-cases on_start o start_word next skip_next keep_next h =
    inr (and_then-eq-accepted (lone_word on_start o start_word) keep_next h)
read_word-cases on_start o publish_word next skip_next keep_next h =
    inr (and_then-eq-accepted (lone_word on_start o publish_word) keep_next h)
read_word-cases on_start o other_word next skip_next keep_next h =
    inr (and_then-eq-accepted (lone_word on_start o other_word) keep_next h)

-- Where a round ends well on some rest, the same round on another rest goes on the same way.
pub read_word-rest :
    (on_start : Options → Outcome) (o : Options) (w : Word) (next : Text)
    (skip_next keep_next skip_more keep_more : Options → Outcome) {final : Options} {r : Outcome}
    → ((mid : Options) → skip_next mid ≡ accepted final → skip_more mid ≡ r)
    → ((mid : Options) → keep_next mid ≡ accepted final → keep_more mid ≡ r)
    → read_word on_start o w next skip_next keep_next ≡ accepted final
    → read_word on_start o w next skip_more keep_more ≡ r
unfolding read_word
read_word-rest on_start o (takes_value v) next skip_next keep_next skip_more keep_more on_skip
      on_keep h =
    let (mid, at_mid, then_final) = and_then-eq-accepted (set_value v next o) skip_next h in
    rw at_mid (on_skip mid then_final)
read_word-rest on_start o start_word next skip_next keep_next skip_more keep_more on_skip on_keep
      h =
    let (mid, at_mid, then_final) =
      and_then-eq-accepted (lone_word on_start o start_word) keep_next h in
    ap (λ m. and_then m keep_more) at_mid ∙ on_keep mid then_final
read_word-rest on_start o publish_word next skip_next keep_next skip_more keep_more on_skip on_keep
      h =
    let (mid, at_mid, then_final) =
      and_then-eq-accepted (lone_word on_start o publish_word) keep_next h in
    ap (λ m. and_then m keep_more) at_mid ∙ on_keep mid then_final
read_word-rest on_start o other_word next skip_next keep_next skip_more keep_more on_skip on_keep
      h =
    let (mid, at_mid, then_final) =
      and_then-eq-accepted (lone_word on_start o other_word) keep_next h in
    ap (λ m. and_then m keep_more) at_mid ∙ on_keep mid then_final

alone :
    (on_start : Options → Outcome) (o : Options) (w : Word) {mid : Options}
    → lone_word on_start o w ≡ accepted mid
    → (next : Text) (skip_next keep_next : Options → Outcome)
    → read_word on_start o w next skip_next keep_next ≡ keep_next mid
unfolding lone_word read_word
alone on_start o (takes_value v) h next skip_next keep_next = ground arith
alone on_start o start_word h next skip_next keep_next = ap (λ m. and_then m keep_next) h
alone on_start o publish_word h next skip_next keep_next = ap (λ m. and_then m keep_next) h
alone on_start o other_word h next skip_next keep_next = ground arith

-- Where the loop ends well on some arguments, it goes on from there with those that follow.
pub read_arguments_append :
    (on_start : Options → Outcome) (o : Options) (args after : List Text) {mid : Options}
    → read_arguments on_start o args ≡ accepted mid
    → read_arguments on_start o (args ++ after) ≡ read_arguments on_start mid after
unfolding read_arguments
read_arguments_append on_start o [] after h =
    ap (λ m. and_then m (λ x. read_arguments on_start x after)) h
read_arguments_append on_start o (arg ∷ []) [] h = h
read_arguments_append on_start o (arg ∷ []) (next ∷ rest) h =
    alone on_start o (word_of arg) h next _ _
read_arguments_append on_start o (arg ∷ next ∷ rest) after h =
    read_word-rest on_start o (word_of arg) next (λ x. read_arguments on_start x rest)
      (λ x. read_arguments on_start x (next ∷ rest))
      (λ x. read_arguments on_start x (rest ++ after))
      (λ x. read_arguments on_start x (next ∷ rest ++ after))
      (λ x e. read_arguments_append on_start x rest after e)
      (λ x e. read_arguments_append on_start x (next ∷ rest) after e) h

-- A word that is none of the options, where an option is expected, ends the program with an error,
-- whatever stands behind it.
pub read_arguments_unknown :
    (on_start : Options → Outcome) (o : Options) (before : List Text) (arg : Text)
    (after : List Text) {mid : Options}
    → read_arguments on_start o before ≡ accepted mid
    → word_of arg ≡ other_word
    → read_arguments on_start o (before ++ (arg ∷ after)) ≡ exit_1 unknown_option
unfolding read_arguments read_word lone_word
read_arguments_unknown on_start o before arg [] h unknown =
    read_arguments_append on_start o before (arg ∷ []) h ∙ rw unknown refl
read_arguments_unknown on_start o before arg (next ∷ rest) h unknown =
    read_arguments_append on_start o before (arg ∷ next ∷ rest) h ∙ rw unknown refl
