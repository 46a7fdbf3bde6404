-- ===== src/Gui/Session/Values.antt =====
-- Boxes stay those of their slaves when the values change.
use kddv.Base.{◌≡◌, refl, sym, ap, ◌∙◌, subst, Bool, List, suc, length, All, some, some-injective}
use kddv.Text.{Text}
use kddv.Slave.{
  Device, EthercatSlave, kelo_drive, robile_battery, kelo_bms, get_rx_variables, get_tx_variables,
}
use kddv.Slave.Image.{Fits, SameClass}
use kddv.Gui.Widgets.{GroupBox}
use kddv.Gui.Labels.{handle_data_changed}
use kddv.Gui.Labels.Lines.{Line, Shows, end, next}
use kddv.Gui.Labels.Faithful.{Matching, Displayed, handle_data_changed-Displayed}
use kddv.Gui.Session.{Alike, no_slaves, slave}

same_variables :
    (d e : Device)
    → SameClass d e
    → (get_rx_variables d ≡ get_rx_variables e) × (get_tx_variables d ≡ get_tx_variables e)
unfolding get_rx_variables get_tx_variables
same_variables (kelo_drive s) (kelo_drive t) h = (refl, refl)
same_variables (robile_battery s) (robile_battery t) h = (refl, refl)
same_variables (kelo_bms s) (kelo_bms t) h = (refl, refl)
same_variables (kelo_drive s) (robile_battery t) h = absurd h
same_variables (kelo_drive s) (kelo_bms t) h = absurd h
same_variables (robile_battery s) (kelo_drive t) h = absurd h
same_variables (robile_battery s) (kelo_bms t) h = absurd h
same_variables (kelo_bms s) (kelo_drive t) h = absurd h
same_variables (kelo_bms s) (robile_battery t) h = absurd h

SameClass-sym : (d e : Device) → SameClass d e → SameClass e d
SameClass-sym (kelo_drive s) (kelo_drive t) h = tt
SameClass-sym (robile_battery s) (robile_battery t) h = tt
SameClass-sym (kelo_bms s) (kelo_bms t) h = tt
SameClass-sym (kelo_drive s) (robile_battery t) h = absurd h
SameClass-sym (kelo_drive s) (kelo_bms t) h = absurd h
SameClass-sym (robile_battery s) (kelo_drive t) h = absurd h
SameClass-sym (robile_battery s) (kelo_bms t) h = absurd h
SameClass-sym (kelo_bms s) (kelo_drive t) h = absurd h
SameClass-sym (kelo_bms s) (robile_battery t) h = absurd h

pub Alike-sym : {ss ts : List EthercatSlave} → Alike ss ts → Alike ts ss
Alike-sym no_slaves = no_slaves
Alike-sym (slave {s = s} {t = t} same more) =
    slave (SameClass-sym s.device t.device same) (Alike-sym more)

pub Matching-Alike :
    {boxes : List GroupBox} {ss ts : List EthercatSlave}
    → Matching boxes ss
    → Alike ss ts
    → Matching boxes ts
Matching-Alike Matching.no_boxes no_slaves = Matching.no_boxes
Matching-Alike (Matching.box b s rx tx made sized more) (slave {t = t} same others) =
    let (rx_same, tx_same) = same_variables s.device t.device same in
    Matching.box b t rx tx (made ∙ rw (rx_same, tx_same) refl)
      (record {
        rx_sized = sized.rx_sized ∙ ap length rx_same;
        tx_sized = sized.tx_sized ∙ ap length tx_same;
      })
      (Matching-Alike more others)

length-Shows :
    {d : Device} {show_units : Bool} {variables values units : List Text} {olds news : List Line}
    → Shows d show_units variables values units olds news
    → length news ≡ length variables
length-Shows end = refl
length-Shows (next t tip more) = ap suc (length-Shows more)

pub Displayed-Matching :
    {show_units : Bool} {boxes boxes' : List GroupBox} {slaves : List EthercatSlave}
    → Displayed show_units boxes slaves boxes'
    → Matching boxes' slaves
Displayed-Matching Displayed.no_boxes = Matching.no_boxes
Displayed-Matching (Displayed.box b s rx_olds tx_olds rx_news tx_news made rx_shows tx_shows more) =
    Matching.box _ s rx_news tx_news refl
      (record { rx_sized = length-Shows rx_shows; tx_sized = length-Shows tx_shows })
      (Displayed-Matching more)

-- New values leave the boxes matching the slaves that they were made for.
pub handle_data_changed-Matching :
    (show_units : Bool) {boxes boxes' : List GroupBox} {ss ts : List EthercatSlave}
    → Matching boxes ss
    → Alike ss ts
    → All (λ s. Fits s.device) ts
    → handle_data_changed show_units boxes ts ≡ some boxes'
    → Matching boxes' ss
handle_data_changed-Matching show_units {ss = ss} matching alike fits h =
    let (boxes'', done, displayed) =
      handle_data_changed-Displayed show_units (Matching-Alike matching alike) fits in
    subst (λ bs. Matching bs ss) (some-injective _ _ (sym done ∙ h))
      (Matching-Alike (Displayed-Matching displayed) (Alike-sym alike))
