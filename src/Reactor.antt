-- ===== src/Reactor.antt =====
-- The event loop's parts: include/jellybean/reactor and src/reactor.
pub mod TimerWheel
pub mod Pool
pub mod Loop
