-- ===== src/Kernel.antt =====
-- The kernel, one module for each of its files.
pub mod Memory
pub mod Page
pub mod Stream
pub mod Task
pub mod Ipc
pub mod Service
pub mod Driver
pub mod Loader
