-- ===== src/Checks.antt =====
-- Runs of the models at concrete inputs, and the theorems at inputs that meet their conditions.
mod Proto
mod Memory
mod Reactor
mod Concurrency
mod Telemetry
mod Config
pub mod Models
mod Executor
mod Inference
mod Scheduler
mod Slab
mod Mpmc
mod Seqlock
mod Actor
mod Session
mod Metrics
mod Startup
mod Threads
mod Loop
mod Pool
