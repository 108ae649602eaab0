-- ===== src/Server.antt =====
-- src/server/main.cpp.
pub mod Session
pub mod Settings
pub mod Readers
pub mod Startup
