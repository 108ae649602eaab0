-- ===== src/Net.antt =====
-- include/jellybean/net: the sockets of the server.
pub mod Socket
