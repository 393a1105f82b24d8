-- ===== src/Daemon.antt =====
-- daemon: programs that run inside the kernel.
pub mod Gc
