-- ===== src/Gui.antt =====
-- src/gui.cpp: the graphical UI, as the state of its widgets and the handlers that change it. What
-- Qt draws is left out.
pub mod Widgets
pub mod Labels
pub mod Window
pub mod Controls
pub mod Session
pub mod Agreement
