-- ===== src/Drivers/Tty.antt =====
-- Terminals, src/drivers/tty/.
pub mod Ldisc
pub mod Buffer
