-- ===== src/Proto/Wire/Header.antt =====
-- The header survives its way through memory.
use jellybean.Base.{ℕ, ◌^◌, ◌<◌, ◌≡◌, refl, arith, List, ◌++◌, length}
use jellybean.Base.Words.{of_le_bytes-le_bytes}
use jellybean.Proto.Wire.{FrameHeader, header_bytes, header_at}

-- Every field fits the width that the struct gives it.
pub record Fits (h : FrameHeader) : Type 0 where
  pub magic : h.magic < 2 ^ 32
  pub version : h.version < 2 ^ 16
  pub type : h.type < 2 ^ 16
  pub flags : h.flags < 2 ^ 16
  pub reserved : h.reserved < 2 ^ 16
  pub payload_length : h.payload_length < 2 ^ 32
  pub actor_id : h.actor_id < 2 ^ 64
  pub message_id : h.message_id < 2 ^ 64

pub length-header_bytes : (h : FrameHeader) → length (header_bytes h) ≡ 32
unfolding header_bytes
length-header_bytes h = refl

-- A header that fits its fields is read back from its bytes, whatever follows them.
pub header_at-header_bytes :
    (h : FrameHeader) (rest : List ℕ) → Fits h → header_at (header_bytes h ++ rest) ≡ h
unfolding header_at header_bytes
header_at-header_bytes h rest fits = λ i. record {
  magic = of_le_bytes-le_bytes 4 h.magic (omega arith) i;
  version = of_le_bytes-le_bytes 2 h.version (omega arith) i;
  type = of_le_bytes-le_bytes 2 h.type (omega arith) i;
  flags = of_le_bytes-le_bytes 2 h.flags (omega arith) i;
  reserved = of_le_bytes-le_bytes 2 h.reserved (omega arith) i;
  payload_length = of_le_bytes-le_bytes 4 h.payload_length (omega arith) i;
  actor_id = of_le_bytes-le_bytes 8 h.actor_id (omega arith) i;
  message_id = of_le_bytes-le_bytes 8 h.message_id (omega arith) i;
}
