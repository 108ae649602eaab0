-- ===== src/Scheduler.antt =====
-- include/jellybean/scheduler: the deque of a worker's tasks.
pub mod Deque
