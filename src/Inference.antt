-- ===== src/Inference.antt =====
-- src/inference and include/jellybean/inference.
pub mod Types
pub mod Settings
pub mod Torch
pub mod Runtime
