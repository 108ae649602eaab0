-- ===== src/Model.antt =====
-- src/model and include/jellybean/model.
pub mod Config
pub mod Registry
pub mod Repository
pub mod Executor
