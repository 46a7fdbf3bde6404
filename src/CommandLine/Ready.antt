-- ===== src/CommandLine/Ready.antt =====
-- What the options hold once `main` goes on: a known source, and what this source needs.
use kddv.Base.{
  ◌≡◌, ◌≢◌, refl, ◌⊎◌, inl, inr, Bool, true, false, ◌||◌, List, [], ◌∷◌, arith, if◌then◌else◌,
}
use kddv.Text.{Text, text, str_eq, is_empty}
use kddv.Text.Keys.{str_eq_iff}
use kddv.CommandLine.{
  Options, defaults, Failure, Outcome, exit_1, accepted, ValueOption, src, iface, config, pcap,
  port, Word, takes_value, start_word, publish_word, other_word, word_of, is_source, set_value,
  lone_word, read_arguments, check_required, set_start, tui_options,
}
use kddv.CommandLine.Loop.{and_then-eq-accepted, read_word-cases}

-- The source is one of the three, and what it reads from has a name.
abbrev pub Ready : Options → Type 0
Ready o =
    ((o.input_source ≡ text "ecat") × (o.network_interface ≢ []))
    ⊎ ((o.input_source ≡ text "sniffer") × (o.network_interface ≢ []) × (o.config_file ≢ []))
    ⊎ ((o.input_source ≡ text "pcap") × (o.config_file ≢ []) × (o.pcap_file ≢ []))

unfoldable pub source_ok : Options → Bool
source_ok o = is_empty o.input_source || is_source o.input_source

not_empty : (t : Text) → is_empty t ≡ false → t ≢ []
not_empty [] h = ground arith
not_empty (c ∷ t) h = λ e. ground arith

-- A check that is passed, and the code after it.
passed :
    (b : Bool) (e : Failure) (m : Outcome) {o : Options}
    → (if b then exit_1 e else m) ≡ accepted o
    → (b ≡ false) × (m ≡ accepted o)
passed true e m h = ground arith
passed false e m h = (refl, h)

branch :
    (b : Bool) {x y r : Outcome}
    → (if b then x else y) ≡ r
    → ((b ≡ true) × (x ≡ r)) ⊎ ((b ≡ false) × (y ≡ r))
branch true h = inl (refl, h)
branch false h = inr (refl, h)

same : {o o' : Options} → accepted o ≡ accepted o' → o' ≡ o
same h = ground arith

-- The checks let through what is ready, unchanged.
pub check_required-Ready :
    (o : Options) {o' : Options}
    → source_ok o ≡ true
    → check_required o ≡ accepted o'
    → (o' ≡ o) × Ready o
unfolding check_required source_ok is_source
check_required-Ready o known h =
    let (named, h1) = passed (is_empty o.input_source) _ _ h in
    elim (branch (str_eq o.input_source (text "ecat")) h1) [
      | inl (e, on_ecat) ↦
          let (has_iface, end) = passed (is_empty o.network_interface) _ _ on_ecat in
          (same end, inl (spelled e, not_empty _ has_iface))
      | inr (no_ecat, h2) ↦ elim (branch (str_eq o.input_source (text "sniffer")) h2) [
        | inl (e, on_sniffer) ↦
            let (has_iface, on_config) = passed (is_empty o.network_interface) _ _ on_sniffer in
            let (has_config, end) = passed (is_empty o.config_file) _ _ on_config in
            (same end, inr (inl (spelled e, not_empty _ has_iface, not_empty _ has_config)))
        | inr (no_sniffer, h3) ↦ elim (branch (str_eq o.input_source (text "pcap")) h3) [
          | inl (e, on_pcap) ↦
              let (has_config, on_file) = passed (is_empty o.config_file) _ _ on_pcap in
              let (has_file, end) = passed (is_empty o.pcap_file) _ _ on_file in
              (same end, inr (inr (spelled e, not_empty _ has_config, not_empty _ has_file)))
          | inr (no_pcap, end) ↦ ground (arith, known, named)
        ]
      ]
    ]
  where
    spelled : {w : Text} → str_eq o.input_source w ≡ true → o.input_source ≡ w
    spelled {w = w} e = (str_eq_iff o.input_source w).0 e

abbrev pub KeepsSource : (Options → Outcome) → Type 0
KeepsSource on_start =
    (o o' : Options) → on_start o ≡ accepted o' → o'.input_source ≡ o.input_source

pub set_value_ok :
    (v : ValueOption) (value : Text) (o : Options) {mid : Options}
    → source_ok o ≡ true
    → set_value v value o ≡ accepted mid
    → source_ok mid ≡ true
unfolding set_value source_ok is_source
set_value_ok src value o ok h = ground arith
set_value_ok iface value o ok h = ground arith
set_value_ok config value o ok h = ground arith
set_value_ok pcap value o ok h = ground arith
set_value_ok port value o ok h = ground arith

pub lone_word_ok :
    (on_start : Options → Outcome) (o : Options) (w : Word) {mid : Options}
    → KeepsSource on_start
    → source_ok o ≡ true
    → lone_word on_start o w ≡ accepted mid
    → source_ok mid ≡ true
unfolding lone_word source_ok
lone_word_ok on_start o (takes_value v) keeps ok h = ground arith
lone_word_ok on_start o start_word {mid = mid} keeps ok h = rw (keeps o mid h) ok
lone_word_ok on_start o publish_word keeps ok h = ground arith
lone_word_ok on_start o other_word keeps ok h = ground arith

-- No other source gets through the loop.
read_arguments_ok :
    (on_start : Options → Outcome) (o : Options) (args : List Text) {final : Options}
    → KeepsSource on_start
    → source_ok o ≡ true
    → read_arguments on_start o args ≡ accepted final
    → source_ok final ≡ true
unfolding read_arguments
read_arguments_ok on_start o [] keeps ok h = rw (same h) ok
read_arguments_ok on_start o (arg ∷ []) keeps ok h =
    lone_word_ok on_start o (word_of arg) keeps ok h
read_arguments_ok on_start o (arg ∷ next ∷ rest) keeps ok h =
    elim (read_word-cases on_start o (word_of arg) next (λ x. read_arguments on_start x rest)
      (λ x. read_arguments on_start x (next ∷ rest)) h) [
        | inl (v, mid, is_v, at_mid, end) ↦
            read_arguments_ok on_start mid rest keeps (set_value_ok v next o ok at_mid) end
        | inr (mid, at_mid, end) ↦
            read_arguments_ok on_start mid (next ∷ rest) keeps
              (lone_word_ok on_start o (word_of arg) keeps ok at_mid) end
      ]

set_start-KeepsSource : KeepsSource set_start
unfolding set_start
set_start-KeepsSource o o' h = ground arith

-- The TUI goes on from its command line only with a known source, a network interface for `ecat`,
-- a network interface and a config file for `sniffer`, and a config file and a PCAP file for
-- `pcap`.
pub tui_options-Ready : (args : List Text) (o : Options) → tui_options args ≡ accepted o → Ready o
unfolding tui_options source_ok
tui_options-Ready args o h =
    let (mid, at_mid, end) =
      and_then-eq-accepted (read_arguments set_start defaults args) check_required h in
    let ok = read_arguments_ok set_start defaults args set_start-KeepsSource refl at_mid in
    let (same_options, ready) = check_required-Ready mid ok end in rw same_options ready
