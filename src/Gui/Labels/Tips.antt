-- ===== src/Gui/Labels/Tips.antt =====
-- The tool tip of a variable: a line for each flag.
use kddv.Base.{
  ℕ, ◌≡◌, refl, ap, sym, ◌%◌, ◌^◌, ◌<◌, Bool, true, false, some, List, [], ◌∷◌, ◌++◌, append_assoc,
  length, length-append, arith, if◌then◌else◌,
}
use kddv.Text.{Text, text, str_eq}
use kddv.Slave.{Device, kelo_drive, robile_battery, kelo_bms, parse_bits, are_bits_parsable}
use kddv.Slave.Drive.Bits.{
  mode, mode_values, command_names, command_values, status_names, status_values,
}
use kddv.Slave.Battery.Bits.{error_names, error_values, warning_names, warning_values}
use kddv.Gui.Widgets.{Child}
use kddv.Gui.Labels.{tab, newline, tool_tip_text, set_tool_tip}

zip_lines : List Text → List Text → List Text
zip_lines [] vals = []
zip_lines (v ∷ vars) [] = []
zip_lines (v ∷ vars) (x ∷ vals) = (v ++ (b':' ∷ tab ∷ x)) ∷ zip_lines vars vals

join_lines : List Text → Text
join_lines [] = []
join_lines (l ∷ []) = l
join_lines (l ∷ m ∷ lines) = l ++ (newline ∷ join_lines (m ∷ lines))

-- The flags of a number, one `name:` tab `value` on each line.
pub described : Device → Text → ℕ → Text
unfolding zip_lines join_lines
described d var_name n =
    let (vars, vals) = parse_bits d n var_name ([], []) in join_lines (zip_lines vars vals)

tool_tip_text-lines :
    (vars vals : List Text)
    → length vals ≡ length vars
    → tool_tip_text vars vals ≡ some (join_lines (zip_lines vars vals))
unfolding tool_tip_text join_lines zip_lines
tool_tip_text-lines [] vals h = refl
tool_tip_text-lines (v ∷ vars) [] h = absurd (omega (arith, h))
tool_tip_text-lines (v ∷ []) (x ∷ vals) h = refl
tool_tip_text-lines (v ∷ w ∷ vars) (x ∷ []) h = absurd (omega (arith, h))
tool_tip_text-lines (v ∷ w ∷ vars) (x ∷ y ∷ vals) h =
    rw (tool_tip_text-lines (w ∷ vars) (y ∷ vals) (omega (arith, h)))
      (ap some (sym (append_assoc v (b':' ∷ tab ∷ x) _)))

abbrev Aligned : List Text × List Text → Type 0
Aligned out = length out.1 ≡ length out.0

if-Aligned :
    (b : Bool) (x y : List Text × List Text) → Aligned x → Aligned y → Aligned (if b then x else y)
if-Aligned true x y p q = p
if-Aligned false x y p q = q

length-mode_values : (m : ℕ) → length (mode_values m) ≡ 4
unfolding mode_values
length-mode_values m = ground arith

command_values-Aligned : (n : ℕ) → Aligned (command_names, command_values n)
unfolding command_values
command_values-Aligned n =
    omega (arith, length-append {0} (mode_values (mode n)) _, length-mode_values (mode n))

-- `parseBits` gives a value for each name.
parse_bits-Aligned :
    (d : Device) (n : ℕ) (var_name : Text) → Aligned (parse_bits d n var_name ([], []))
unfolding parse_bits status_values error_values warning_values
parse_bits-Aligned (kelo_drive s) n var_name =
    if-Aligned (str_eq var_name (text "command1")) _ _ (command_values-Aligned n)
      (if-Aligned (str_eq var_name (text "status1")) (status_names, status_values n) _ refl refl)
parse_bits-Aligned (robile_battery s) n var_name =
    if-Aligned (str_eq var_name (text "error")) (error_names, error_values n) _ refl
      (if-Aligned (str_eq var_name (text "warning")) (warning_names, warning_values n) _ refl refl)
parse_bits-Aligned (kelo_bms s) n var_name = refl

-- A number that fits the cast gets its description.
pub set_tool_tip-described :
    (d : Device) (var_name : Text) (n : ℕ) (c : Child)
    → are_bits_parsable d var_name ≡ true
    → n < 2 ^ 16
    → set_tool_tip d var_name (some n) c ≡ some (record c { tool_tip = described d var_name n })
unfolding set_tool_tip described
set_tool_tip-described d var_name n c parsable fits =
    let small : n % 2 ^ 16 ≡ n = omega (arith, fits) in
    rw (parsable, small, tool_tip_text-lines _ _ (parse_bits-Aligned d n var_name)) refl
