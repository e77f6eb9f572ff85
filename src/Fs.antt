-- ===== src/Fs.antt =====
-- The virtual file system, src/fs/.
pub mod Path
