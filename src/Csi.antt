-- ===== src/Csi.antt =====
-- csi.c: the handlers of control sequences that are modelled apart from the cursor moves.
pub mod Edit
pub mod Modes
pub mod Sgr
pub mod Tabs
