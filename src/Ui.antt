-- ===== src/Ui.antt =====
-- The parts of the UI kit (ui/) that hold state or compute texts, without their drawing.
pub mod Notifications
pub mod Windows
