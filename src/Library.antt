-- ===== src/Library.antt =====
-- library/shared: the routines that the kernel and the programs share.
pub mod Text
pub mod Integer
pub mod Vfs
pub mod Sys
pub mod Json
pub mod Terminal
pub mod Color
pub mod Font
pub mod Interface
pub mod Tests
