-- ===== src/Drivers.antt =====
-- Device drivers, src/drivers/.
pub mod Tty
