-- ===== src/Kernel/Driver.antt =====
-- kernel/driver: the keyboard and the mouse at the PS/2 controller, the clock and the serial port.
pub mod Keyboard
pub mod Mouse
pub mod Controller
pub mod Rtc
pub mod Serial
