-- ===== src/Examples.antt =====
-- Concrete runs, and the theorems at concrete inputs. The parameters are filled with small models.
mod JsonModel
mod Devices
mod Slaves
mod Sniffing
mod Threading
mod Publishing
mod Piping
mod Generating
mod CommandLines
mod Driving
mod Drawing
mod Clicking
mod Quitting
