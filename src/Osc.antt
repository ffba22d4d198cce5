-- ===== src/Osc.antt =====
-- osc.c: the answer to a request for the clipboard (OSC 52).
pub mod Clipboard
