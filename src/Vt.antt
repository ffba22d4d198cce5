-- ===== src/Vt.antt =====
-- vt.c: the escape sequence parser. The children hold the state (`State`), the parameter,
-- UTF-8 and OSC actions, the transition tables (`Switch`) and the loop (`Machine`).
pub mod State
pub mod Params
pub mod Utf8
pub mod Osc
pub mod Switch
pub mod Machine
pub mod Tests
