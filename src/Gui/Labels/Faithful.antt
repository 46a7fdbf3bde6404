-- ===== src/Gui/Labels/Faithful.antt =====
-- What the labels show after `handleDataChanged`.
use kddv.Base.{suc, ◌+◌, ◌≡◌, refl, ap, Bool, some, List, [], ◌∷◌, ◌++◌, map, length, All}
use kddv.Text.{Text, text}
use kddv.Slave.{
  Device, EthercatSlave, get_rx_variables, get_tx_variables, get_rx_units, get_tx_units,
  get_rx_values, get_tx_values,
}
use kddv.Slave.Image.{Fits}
use kddv.Slave.Views.{tables_aligned}
use kddv.Gui.Widgets.{Child, GroupBox, unnamed, add_labels, make_box}
use kddv.Gui.Labels.{update_children, handle_data_changed}
use kddv.Gui.Labels.Lines.{
  Line, grid, Shows, At-start, rows, update_children-rx, update_children-tx,
}
use kddv.Gui.Labels.Numbers.{AllReadable-rx, AllReadable-tx}

-- The children of a box for a device, with what its labels show.
abbrev pub box_children : Device → List Line → List Line → List Child
box_children d rx_lines tx_lines =
    unnamed [] ∷ grid (text "RX") (get_rx_variables d) rx_lines
    ++ grid (text "TX") (get_tx_variables d) tx_lines

abbrev pub RxShows : Device → Bool → List Line → List Line → Type 0
RxShows d show_units = Shows d show_units (get_rx_variables d) (get_rx_values d) (get_rx_units d)

abbrev pub TxShows : Device → Bool → List Line → List Line → Type 0
TxShows d show_units = Shows d show_units (get_tx_variables d) (get_tx_values d) (get_tx_units d)

-- A line for each variable.
pub record Sized (d : Device) (rx_lines tx_lines : List Line) : Type 0 where
  pub rx_sized : length rx_lines ≡ length (get_rx_variables d)
  pub tx_sized : length tx_lines ≡ length (get_tx_variables d)

update_box :
    (d : Device) (show_units : Bool) (rx_olds tx_olds : List Line)
    → Fits d
    → Sized d rx_olds tx_olds
    → (rx_news : List Line) × (tx_news : List Line) × RxShows d show_units rx_olds rx_news
      × TxShows d show_units tx_olds tx_news
      × (update_children d show_units 0 0 (box_children d rx_olds tx_olds)
          ≡ some (box_children d rx_news tx_news))
unfolding update_children
update_box d show_units rx_olds tx_olds fits sized =
    let (_, rx_units, _, tx_units) = tables_aligned d in
    let (tx_news, tx_shows, tx_done) =
      update_children-tx d show_units (0 + length (get_rx_variables d)) 0
        (rows d (get_tx_units d) tx_olds (AllReadable-tx d fits) tx_units sized.tx_sized)
        (At-start (get_tx_values d)) (At-start (get_tx_units d)) in
    let (rx_news, rx_shows, rx_done) =
      update_children-rx d show_units 0 0 (grid (text "TX") (get_tx_variables d) tx_olds)
        (grid (text "TX") (get_tx_variables d) tx_news)
        (rows d (get_rx_units d) rx_olds (AllReadable-rx d fits) rx_units sized.rx_sized)
        (At-start (get_rx_values d)) (At-start (get_rx_units d)) tx_done in
    (rx_news, tx_news, rx_shows, tx_shows, rw rx_done refl)

-- A box for each slave, with a label for each of its variables.
pub data Matching : List GroupBox → List EthercatSlave → Type 0 where
  no_boxes : Matching [] []
  box :
      (b : GroupBox) (s : EthercatSlave) (rx_lines tx_lines : List Line) {boxes : List GroupBox}
      {slaves : List EthercatSlave}
      → b.children ≡ box_children s.device rx_lines tx_lines
      → Sized s.device rx_lines tx_lines
      → Matching boxes slaves
      → Matching (b ∷ boxes) (s ∷ slaves)

-- The boxes before, and with the values of the slaves: names and visibility stay, and each label
-- shows its variable.
pub data Displayed (show_units : Bool)
    : List GroupBox → List EthercatSlave → List GroupBox → Type 0 where
  no_boxes : Displayed show_units [] [] []
  box :
      (b : GroupBox) (s : EthercatSlave) (rx_olds tx_olds rx_news tx_news : List Line)
      {boxes boxes' : List GroupBox} {slaves : List EthercatSlave}
      → b.children ≡ box_children s.device rx_olds tx_olds
      → RxShows s.device show_units rx_olds rx_news
      → TxShows s.device show_units tx_olds tx_news
      → Displayed show_units boxes slaves boxes'
      → Displayed show_units
          (b ∷ boxes)
          (s ∷ slaves)
          (record b { children = box_children s.device rx_news tx_news } ∷ boxes')

-- For slaves whose fields are in range, and their boxes, `handleDataChanged` neither throws nor reads
-- out of range. Afterwards the label of each variable shows its value, with its unit in ten columns
-- if units are shown; the tool tip of a variable with bits lists the flags of that value; other tool
-- tips, the names of the boxes and what is visible stay.
pub handle_data_changed-Displayed :
    (show_units : Bool) {boxes : List GroupBox} {slaves : List EthercatSlave}
    → Matching boxes slaves
    → All (λ s. Fits s.device) slaves
    → (boxes' : List GroupBox) × (handle_data_changed show_units boxes slaves ≡ some boxes')
      × Displayed show_units boxes slaves boxes'
unfolding handle_data_changed
handle_data_changed-Displayed show_units Matching.no_boxes fits = ([], refl, Displayed.no_boxes)
handle_data_changed-Displayed show_units (Matching.box b s rx_lines tx_lines made sized more)
      (here, others) =
    let (rx_news, tx_news, rx_shows, tx_shows, updated) =
      update_box s.device show_units rx_lines tx_lines here sized in
    let (boxes', done, all_shown) = handle_data_changed-Displayed show_units more others in
    (
      record b { children = box_children s.device rx_news tx_news } ∷ boxes',
      rw (made, updated, done) refl,
      Displayed.box b s rx_lines tx_lines rx_news tx_news made rx_shows tx_shows all_shown,
    )

-- Labels that show nothing yet.
blank : List Text → List Line
blank [] = []
blank (v ∷ variables) = record { value = []; tip = [] } ∷ blank variables

length-blank : (variables : List Text) → length (blank variables) ≡ length variables
unfolding blank
length-blank [] = refl
length-blank (v ∷ variables) = ap suc (length-blank variables)

add_labels-grid :
    (kind : Text) (variables : List Text)
    → add_labels kind variables ≡ grid kind variables (blank variables)
unfolding add_labels blank
add_labels-grid kind [] = refl
add_labels-grid kind (v ∷ variables) =
    ap (λ cs. unnamed v ∷ record { object_name = kind ++ v; shown = []; tool_tip = [] } ∷ cs)
      (add_labels-grid kind variables)

-- The boxes that `handleDiscoverButton` makes.
pub make_box-Matching : (slaves : List EthercatSlave) → Matching (map make_box slaves) slaves
unfolding make_box
make_box-Matching [] = Matching.no_boxes
make_box-Matching (s ∷ slaves) =
    Matching.box (make_box s) s (blank (get_rx_variables s.device))
      (blank (get_tx_variables s.device))
      (rw
        (
          add_labels-grid (text "RX") (get_rx_variables s.device),
          add_labels-grid (text "TX") (get_tx_variables s.device),
        )
        refl)
      (record {
        rx_sized = length-blank (get_rx_variables s.device);
        tx_sized = length-blank (get_tx_variables s.device);
      })
      (make_box-Matching slaves)
