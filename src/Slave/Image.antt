-- ===== src/Slave/Image.antt =====
-- The process image of a slave, stated from the slave's side: the bytes of its two structs.
use kddv.Base.{ℕ, ◌≡◌, some, List, ◌++◌}
use kddv.Scalar.{wire}
use kddv.Slave.{Device, kelo_drive, robile_battery, kelo_bms, copy_device}
use kddv.Slave.Drive
use kddv.Slave.Battery
use kddv.Slave.Bms

-- What the master sends to a slave in this state, and what the slave sends back.
abbrev pub rx_image : Device → List ℕ
rx_image (kelo_drive s) = wire (Drive.Layout.rx_fields s.rx)
rx_image (robile_battery s) = wire (Battery.Layout.rx_fields s.rx)
rx_image (kelo_bms s) = wire (Bms.Layout.rx_fields s.rx)

abbrev pub tx_image : Device → List ℕ
tx_image (kelo_drive s) = wire (Drive.Layout.tx_fields s.tx)
tx_image (robile_battery s) = wire (Battery.Layout.tx_fields s.tx)
tx_image (kelo_bms s) = wire (Bms.Layout.tx_fields s.tx)

-- Every field is in the range of its C type.
abbrev pub Fits : Device → Type 0
Fits (kelo_drive s) = Drive.Layout.RxFits s.rx × Drive.Layout.TxFits s.tx
Fits (robile_battery s) = Battery.Layout.RxFits s.rx × Battery.Layout.TxFits s.tx
Fits (kelo_bms s) = Bms.Layout.RxFits s.rx × Bms.Layout.TxFits s.tx

abbrev pub SameClass : Device → Device → Type 0
SameClass (kelo_drive s) (kelo_drive t) = Unit {0}
SameClass (robile_battery s) (robile_battery t) = Unit {0}
SameClass (kelo_bms s) (kelo_bms t) = Unit {0}
SameClass _ _ = ⊥

-- For each of the three classes: copying from buffers that begin with the images of a device of the
-- same class, every field in the range of its C type, gives exactly this device, whatever the slave
-- held before and whatever stands behind the images.
pub copy_device-image :
    (d e : Device) (rx_rest tx_rest : List ℕ)
    → SameClass d e
    → Fits e
    → copy_device d (rx_image e ++ rx_rest) (tx_image e ++ tx_rest) ≡ some e
unfolding copy_device
copy_device-image (kelo_drive s) (kelo_drive t) a b c h =
    rw (Drive.Layout.copy_data-wire_drive s t.rx t.tx a b h.0 h.1)
copy_device-image (robile_battery s) (robile_battery t) a b c h =
    rw (Battery.Layout.copy_data-wire_battery s t.rx t.tx a b h.0 h.1)
copy_device-image (kelo_bms s) (kelo_bms t) a b c h =
    rw (Bms.Layout.copy_data-wire_bms s t.rx t.tx a b h.0 h.1)
copy_device-image (kelo_drive s) (robile_battery t) a b c h = absurd c
copy_device-image (kelo_drive s) (kelo_bms t) a b c h = absurd c
copy_device-image (robile_battery s) (kelo_drive t) a b c h = absurd c
copy_device-image (robile_battery s) (kelo_bms t) a b c h = absurd c
copy_device-image (kelo_bms s) (kelo_drive t) a b c h = absurd c
copy_device-image (kelo_bms s) (robile_battery t) a b c h = absurd c
