-- ===== src/Gui/Labels/Lines.antt =====
-- The labels of one table of variables, before and after they are updated.
use kddv.Base.{
  ℕ, suc, ◌+◌, ◌≡◌, refl, ap, ◌∙◌, ◌⊎◌, inl, inr, Bool-cases, Bool, true, false, some, List, [],
  ◌∷◌, ◌++◌, if◌then◌else◌, length, get_elem?, drop, arith,
}
use kddv.Text.{Text, text, has_prefix, to_string, stoul}
use kddv.Text.Decimal.{stoul-to_string}
use kddv.Slave.{Device, get_rx_units, get_tx_units, get_rx_values, get_tx_values, are_bits_parsable}
use kddv.Gui.Widgets.{Child, unnamed}
use kddv.Gui.Labels.{setw, value_text, set_tool_tip, update_label, update_children}
use kddv.Gui.Labels.Tips.{described, set_tool_tip-described}
use kddv.Gui.Labels.Numbers.{Readable, AllReadable, last, and_then}

-- What a label shows, and its tool tip.
pub record Line : Type 0 where
  pub value : Text
  pub tip : Text

abbrev pub value_label : Text → Text → Line → Child
value_label kind variable l = record {
  object_name = kind ++ variable;
  shown = l.value;
  tool_tip = l.tip;
}

-- The labels of one loop over the variables.
abbrev pub grid : Text → List Text → List Line → List Child
grid kind [] lines = []
grid kind (v ∷ variables) [] = []
grid kind (v ∷ variables) (l ∷ lines) = unnamed v ∷ value_label kind v l ∷ grid kind variables lines

-- A tool tip that is left alone, or describes the number that is shown.
abbrev pub Tip : Device → Text → Text → Text → Text → Type 0
Tip d variable value old tip =
    ((are_bits_parsable d variable ≡ false) × (tip ≡ old))
    ⊎ ((n : ℕ) × (value ≡ to_string n) × (tip ≡ described d variable n))

-- Each line shows the value of its variable, with the unit in ten columns if units are shown.
pub data Shows (d : Device) (show_units : Bool)
    : List Text → List Text → List Text → List Line → List Line → Type 0 where
  end : Shows d show_units [] [] [] [] []
  next :
      {v x u : Text} {variables values units : List Text} {old new : Line} {olds news : List Line}
      → new.value ≡ (if show_units then x ++ setw 10 u else x)
      → Tip d v x old.tip new.tip
      → Shows d show_units variables values units olds news
      → Shows d show_units (v ∷ variables) (x ∷ values) (u ∷ units) (old ∷ olds) (new ∷ news)

value_text-some :
    (show_units : Bool) (x u : Text) (units : List Text) (id : ℕ)
    → get_elem? units id ≡ some u
    → value_text show_units x units id ≡ some (if show_units then x ++ setw 10 u else x)
unfolding value_text
value_text-some true x u units id h = rw h refl
value_text-some false x u units id h = refl

set_tool_tip-some :
    (d : Device) (v x : Text) (c : Child)
    → Readable d v x
    → (tip : Text) × (set_tool_tip d v (stoul x) c ≡ some (record c { tool_tip = tip }))
      × Tip d v x c.tool_tip tip
set_tool_tip-some d v x c readable = elim (Bool-cases (are_bits_parsable d v)) [
  | inl on ↦ elim readable [
    | inl off ↦ cc
    | inr (n, e, fits) ↦ (
      described d v n,
      rw (e, stoul-to_string n (omega (arith, fits))) (set_tool_tip-described d v n c on fits),
      inr (n, e, refl),
    )
  ]
  | inr off ↦ (c.tool_tip, unfold set_tool_tip in rw off refl, inl (off, refl))
]

update_label-some :
    (d : Device) (show_units : Bool) (kind v x u : Text) (values units : List Text) (id : ℕ)
    (old : Line)
    → drop 2 (kind ++ v) ≡ v
    → get_elem? values id ≡ some x
    → get_elem? units id ≡ some u
    → Readable d v x
    → (new : Line) × (update_label d show_units values units id (value_label kind v old)
        ≡ some (value_label kind v new))
      × (new.value ≡ (if show_units then x ++ setw 10 u else x))
      × Tip d v x old.tip new.tip
unfolding update_label
update_label-some d show_units kind v x u values units id old dropped at_value at_unit readable =
    let t : Text = if show_units then x ++ setw 10 u else x in
    let (tip, done, is_tip) =
      set_tool_tip-some d v x (value_label kind v (record { value = t; tip = old.tip })) readable in
    (
      record { value = t; tip = tip },
      rw (at_value, value_text-some show_units x u units id at_unit, dropped) done,
      refl,
      is_tip,
    )

-- The tail of a table, from an index on.
pub At : List Text → ℕ → List Text → Type 0
At table k rest = (j : ℕ) → get_elem? table (k + j) ≡ get_elem? rest j

At-next :
    (table : List Text) (k : ℕ) (x : Text) (rest : List Text)
    → At table k (x ∷ rest)
    → At table (suc k) rest
unfolding At
At-next table k x rest at j = ap (get_elem? table) (omega arith) ∙ at (suc j)

At-here :
    (table : List Text) (k : ℕ) (x : Text) (rest : List Text)
    → At table k (x ∷ rest)
    → get_elem? table k ≡ some x
unfolding At
At-here table k x rest at = ap (get_elem? table) (omega arith) ∙ at 0

pub At-start : (table : List Text) → At table 0 table
unfolding At
At-start table j = ap (get_elem? table) (omega arith)

-- One table, its units and its labels, row by row.
pub data Rows (d : Device) : List Text → List Text → List Text → List Line → Type 0 where
  none_left : Rows d [] [] [] []
  row :
      (v x u : Text) (old : Line) {variables values units : List Text} {olds : List Line}
      → Readable d v x
      → Rows d variables values units olds
      → Rows d (v ∷ variables) (x ∷ values) (u ∷ units) (old ∷ olds)

pub rows :
    (d : Device) {variables values : List Text} (units : List Text) (olds : List Line)
    → AllReadable d variables values
    → length units ≡ length variables
    → length olds ≡ length variables
    → Rows d variables values units olds
rows d [] [] last e e' = none_left
rows d (u ∷ units) olds last e e' = absurd (omega (arith, e))
rows d [] (old ∷ olds) last e e' = absurd (omega (arith, e'))
rows d [] olds (and_then readable more) e e' = absurd (omega (arith, e))
rows d (u ∷ units) [] (and_then readable more) e e' = absurd (omega (arith, e'))
rows d (u ∷ units) (old ∷ olds) (and_then {v = v} {x = x} readable more) e e' =
    row v x u old readable (rows d units olds more (omega (arith, e)) (omega (arith, e')))

pub update_children-rx :
    (d : Device) (show_units : Bool) (k tx_id : ℕ) (rest rest' : List Child)
    {variables values units : List Text} {olds : List Line}
    → Rows d variables values units olds
    → At (get_rx_values d) k values
    → At (get_rx_units d) k units
    → update_children d show_units (k + length variables) tx_id rest ≡ some rest'
    → (news : List Line) × Shows d show_units variables values units olds news
      × (update_children d show_units k tx_id (grid (text "RX") variables olds ++ rest)
          ≡ some (grid (text "RX") variables news ++ rest'))
unfolding update_children has_prefix
update_children-rx d show_units k tx_id rest rest' none_left at_values at_units done =
    ([], end, ap (λ i. update_children d show_units i tx_id rest) (omega arith) ∙ done)
update_children-rx d show_units k tx_id rest rest'
      (row v x u old {values = values} {units = units} readable more) at_values at_units done =
    let (new, updated, shows, tip) =
      update_label-some d show_units (text "RX") v x u (get_rx_values d) (get_rx_units d) k old refl
        (At-here (get_rx_values d) k x values at_values)
        (At-here (get_rx_units d) k u units at_units) readable in
    let (news, all_show, others) =
      update_children-rx d show_units (suc k) tx_id rest rest' more
        (At-next (get_rx_values d) k x values at_values)
        (At-next (get_rx_units d) k u units at_units)
        (ap (λ i. update_children d show_units i tx_id rest) (omega arith) ∙ done) in
    (new ∷ news, next shows tip all_show, rw (updated, others) refl)

pub update_children-tx :
    (d : Device) (show_units : Bool) (rx_id k : ℕ) {variables values units : List Text}
    {olds : List Line}
    → Rows d variables values units olds
    → At (get_tx_values d) k values
    → At (get_tx_units d) k units
    → (news : List Line) × Shows d show_units variables values units olds news
      × (update_children d show_units rx_id k (grid (text "TX") variables olds)
          ≡ some (grid (text "TX") variables news))
unfolding update_children has_prefix
update_children-tx d show_units rx_id k none_left at_values at_units = ([], end, refl)
update_children-tx d show_units rx_id k
      (row v x u old {values = values} {units = units} readable more) at_values at_units =
    let (new, updated, shows, tip) =
      update_label-some d show_units (text "TX") v x u (get_tx_values d) (get_tx_units d) k old refl
        (At-here (get_tx_values d) k x values at_values)
        (At-here (get_tx_units d) k u units at_units) readable in
    let (news, all_show, others) =
      update_children-tx d show_units rx_id (suc k) more
        (At-next (get_tx_values d) k x values at_values)
        (At-next (get_tx_units d) k u units at_units) in
    (new ∷ news, next shows tip all_show, rw (updated, others) refl)
