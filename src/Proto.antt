-- ===== src/Proto.antt =====
-- The framed wire protocol: include/jellybean/proto and src/proto/codec.cpp.
pub mod Wire
pub mod Crc
pub mod Codec
