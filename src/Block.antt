-- ===== src/Block.antt =====
-- src/block: the write-back cache of block devices.
pub mod Cache
