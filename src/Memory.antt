-- ===== src/Memory.antt =====
-- The allocators: include/jellybean/memory and src/memory.
pub mod Arena
pub mod Slab
