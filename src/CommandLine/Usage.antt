-- ===== src/CommandLine/Usage.antt =====
-- `print_usage` of src/tui_main.cpp and src/gui_main.cpp.
use kddv.Base.{
  ◌≡◌, ◌≢◌, refl, sym, subst, ◌⊎◌, inl, inr, ◌↔◌, true, Bool-cases, Option, some, ◌>>=◌, List, [],
  ◌∷◌, ◌++◌, arith,
}
use kddv.Text.{Text, text, str_eq}
use kddv.Text.Keys.{str_eq_iff}
use kddv.CommandLine.{word_of, other_word}
use kddv.Source.Interfaces.{IfNameIndex, get_network_interfaces}

-- The options with what stands behind them.
abbrev pub usage_options : List (Text × Text)
usage_options =
    (text "--src", text " INPUT_SOURCE")
    ∷ (text "--iface", text " NETWORK_INTERFACE")
    ∷ (text "--config", text " CONFIG_FILE")
    ∷ (text "--pcap", text " PCAP_FILE")
    ∷ (text "--enable_zmq", [])
    ∷ (text "--zmq_port", text " ZMQ_PORT")
    ∷ (text "--start", [])
    ∷ []

abbrev option_line : Text × Text → Text
option_line (option, value) = text "\t[" ++ (option ++ (value ++ text "]"))

abbrev tabbed : Text → Text
tabbed interface = text "\t" ++ interface

abbrev lines_of : {A : Type 0} → (A → Text) → List A → List Text
lines_of line [] = []
lines_of line (x ∷ xs) = line x ∷ lines_of line xs

abbrev options_part : Text → List Text
options_part exec_name = text "Usage: " ∷ exec_name ∷ lines_of option_line usage_options

abbrev sources_part : List Text → List Text
sources_part interfaces =
    text "INPUT_SOURCE: valid sources are"
    ∷ text "\tecat"
    ∷ text "\tsniffer"
    ∷ text "\tpcap"
    ∷ text "NETWORK_INTERFACE: valid interfaces are:"
    ∷ lines_of tabbed interfaces

abbrev rule : Text
rule = text "---------------------------------------"

-- The lines of the TUI; `none` is `getNetworkInterfaces` reading behind the array of the system.
unfoldable pub tui_usage : Text → Option (List IfNameIndex) → Option (List Text)
tui_usage exec_name if_nidxs = do
  interfaces ← get_network_interfaces if_nidxs
  some (([] ∷ rule ∷ options_part exec_name) ++ ([] ∷ (sources_part interfaces ++ (rule ∷ []))))

unfoldable pub gui_usage : Text → Option (List IfNameIndex) → Option (List Text)
gui_usage exec_name if_nidxs = do
  interfaces ← get_network_interfaces if_nidxs
  some (options_part exec_name ++ sources_part interfaces)

-- Whether the usage names the option.
abbrev NamedIn : List (Text × Text) → Text → Type 0
NamedIn [] w = ⊥
NamedIn ((option, value) ∷ options) w = (w ≡ option) ⊎ NamedIn options w

-- One of those options, and not `--enable_zmq`.
abbrev pub Documented : Text → Type 0
Documented w = NamedIn usage_options w × (w ≢ text "--enable_zmq")

read_same : (w option : Text) → w ≡ option → word_of option ≢ other_word → word_of w ≢ other_word
read_same w option e known = subst (λ v. word_of v ≢ other_word) (sym e) known

Documented-read : (w : Text) → Documented w → word_of w ≢ other_word
unfolding word_of str_eq
Documented-read w (inl e, _) = read_same w (text "--src") e (λ h. ground arith)
Documented-read w (inr (inl e), _) = read_same w (text "--iface") e (λ h. ground arith)
Documented-read w (inr (inr (inl e)), _) = read_same w (text "--config") e (λ h. ground arith)
Documented-read w (inr (inr (inr (inl e))), _) = read_same w (text "--pcap") e (λ h. ground arith)
Documented-read w (inr (inr (inr (inr (inl e)))), zmq) = absurd (zmq e)
Documented-read w (inr (inr (inr (inr (inr (inl e))))), _) =
    read_same w (text "--zmq_port") e (λ h. ground arith)
Documented-read w (inr (inr (inr (inr (inr (inr (inl e)))))), _) =
    read_same w (text "--start") e (λ h. ground arith)
Documented-read w (inr (inr (inr (inr (inr (inr (inr e)))))), _) = absurd e

publish-read : (w : Text) → w ≡ text "--publish_zmq" → word_of w ≢ other_word
unfolding word_of str_eq
publish-read w e = read_same w (text "--publish_zmq") e (λ h. ground arith)

abbrev Readable : Text → Type 0
Readable w = (w ≡ text "--publish_zmq") ⊎ Documented w

enable_unread : (w : Text) → w ≡ text "--enable_zmq" → word_of w ≡ other_word
unfolding word_of str_eq
enable_unread w e = rw e refl

named-Readable : (w : Text) → word_of w ≢ other_word → NamedIn usage_options w → Readable w
named-Readable w known named = inr (named, λ e. known (enable_unread w e))

equal : (w option : Text) → str_eq w option ≡ true → w ≡ option
equal w option h = (str_eq_iff w option).0 h

read-Readable : (w : Text) → word_of w ≢ other_word → Readable w
unfolding word_of
read-Readable w known = elim (Bool-cases (str_eq w (text "--src"))) [
  | inl e ↦ named-Readable w known (inl (equal w _ e))
  | inr e0 ↦ elim (Bool-cases (str_eq w (text "--iface"))) [
    | inl e ↦ named-Readable w known (inr (inl (equal w _ e)))
    | inr e1 ↦ elim (Bool-cases (str_eq w (text "--config"))) [
      | inl e ↦ named-Readable w known (inr (inr (inl (equal w _ e))))
      | inr e2 ↦ elim (Bool-cases (str_eq w (text "--pcap"))) [
        | inl e ↦ named-Readable w known (inr (inr (inr (inl (equal w _ e)))))
        | inr e3 ↦ elim (Bool-cases (str_eq w (text "--start"))) [
          | inl e ↦ named-Readable w known (inr (inr (inr (inr (inr (inr (inl (equal w _ e))))))))
          | inr e4 ↦ elim (Bool-cases (str_eq w (text "--zmq_port"))) [
            | inl e ↦ named-Readable w known (inr (inr (inr (inr (inr (inl (equal w _ e)))))))
            | inr e5 ↦ elim (Bool-cases (str_eq w (text "--publish_zmq"))) [
              | inl e ↦ inl (equal w _ e)
              | inr e6 ↦ absurd (known (rw (e0, e1, e2, e3, e4, e5, e6) refl))
            ]
          ]
        ]
      ]
    ]
  ]
]

-- A word is read as an option exactly if it is `--publish_zmq`, which the usage does not name, or
-- one of the options that it names, `--enable_zmq` left out.
pub options_read : (w : Text) → (word_of w ≢ other_word) ↔ Readable w
options_read w = (
  read-Readable w,
  λ h. elim h [ inl e ↦ publish-read w e | inr documented ↦ Documented-read w documented ],
)
