-- ===== src/Util.antt =====
-- The support library, src/lib/.
pub mod Cpio
pub mod Div64
pub mod Text
