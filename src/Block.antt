-- ===== src/Block.antt =====
-- The block layer, src/block/.
pub mod Request
pub mod Partitions
