-- ===== src/Core.antt =====
-- src/core: the physical page allocator and the ordered locks.
pub mod Pmm
pub mod Klock
