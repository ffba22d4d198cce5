-- ===== src/Screen.antt =====
-- terminal.c and commands.c: the screen. The children hold the state (`State`), rows (`Row`),
-- damage (`Damage`), the view (`View`), scrolling (`Scroll`), the cursor (`Cursor`) and
-- printing (`Print`).
pub mod State
pub mod Row
pub mod Damage
pub mod View
pub mod Scroll
pub mod Cursor
pub mod Print
pub mod Tests
