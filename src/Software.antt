-- ===== src/Software.antt =====
-- software: the programs.
pub mod Wm
pub mod Console
