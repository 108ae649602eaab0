-- ===== src/Concurrency.antt =====
-- The lock-free structures of include/jellybean/concurrency.
pub mod Fifo
pub mod Spsc
pub mod Mpmc
pub mod Seqlock
