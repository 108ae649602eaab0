-- ===== src/Proto/Wire.antt =====
-- include/jellybean/proto/wire.hpp and frame.hpp: the constants of the protocol, the header and
-- its bytes in memory, and where the parts of a frame lie. Sizes are `size_t` and wrap at 64 bits.
pub mod Align
pub mod Layout
pub mod Header
use jellybean.Base.{ℕ, ◌+◌, ◌-◌, ◌^◌, Bool, true, false, List, [], ◌++◌, Option, none, some}
use jellybean.Base.{bit_and, leb, take, drop, if◌then◌else◌}
use jellybean.Base.Words.{u64, add64, sub64, not64, le_bytes, of_le_bytes}

abbrev pub magic : ℕ
magic = 0x48454C31

abbrev pub version : ℕ
version = 1

abbrev pub payload_alignment : ℕ
payload_alignment = 8

abbrev pub crc_size : ℕ
crc_size = 4

-- `sizeof(FrameHeader)`, which a static_assert of the source fixes.
abbrev pub header_size : ℕ
header_size = 32

pub data MessageType : Type 0 where
  handshake actor_message heartbeat raft_append raft_vote raft_snapshot : MessageType

-- `static_cast<std::uint16_t>(type)`
abbrev pub type_code : MessageType → ℕ
type_code MessageType.handshake = 0x0001
type_code MessageType.actor_message = 0x0002
type_code MessageType.heartbeat = 0x0003
type_code MessageType.raft_append = 0x0010
type_code MessageType.raft_vote = 0x0011
type_code MessageType.raft_snapshot = 0x0012

pub record FrameHeader : Type 0 where
  pub magic : ℕ  -- uint32_t
  pub version : ℕ  -- uint16_t
  pub type : ℕ  -- uint16_t
  pub flags : ℕ  -- uint16_t
  pub reserved : ℕ  -- uint16_t
  pub payload_length : ℕ  -- uint32_t
  pub actor_id : ℕ  -- uint64_t
  pub message_id : ℕ  -- uint64_t

-- The packed struct in memory, on a little-endian machine.
unfoldable pub header_bytes : FrameHeader → List ℕ
header_bytes h =
    le_bytes 4 h.magic
    ++ (le_bytes 2 h.version
        ++ (le_bytes 2 h.type
            ++ (le_bytes 2 h.flags
                ++ (le_bytes 2 h.reserved
                    ++ (le_bytes 4 h.payload_length
                        ++ (le_bytes 8 h.actor_id ++ le_bytes 8 h.message_id))))))

abbrev pub read_word : ℕ → ℕ → List ℕ → ℕ
read_word off k buf = of_le_bytes (take k (drop off buf))

-- `*reinterpret_cast<const FrameHeader*>(buffer.data())`
unfoldable pub header_at : List ℕ → FrameHeader
header_at buf = record {
  magic = read_word 0 4 buf;
  version = read_word 4 2 buf;
  type = read_word 6 2 buf;
  flags = read_word 8 2 buf;
  reserved = read_word 10 2 buf;
  payload_length = read_word 12 4 buf;
  actor_id = read_word 16 8 buf;
  message_id = read_word 24 8 buf;
}

-- `FrameHeader header{}`
abbrev pub zero_header : FrameHeader
zero_header = record {
  magic = 0;
  version = 0;
  type = 0;
  flags = 0;
  reserved = 0;
  payload_length = 0;
  actor_id = 0;
  message_id = 0;
}

pub record ParsedFrame : Type 0 where
  pub header : FrameHeader
  pub payload_owned : List ℕ
  pub valid : Bool
  pub expected_crc : ℕ
  pub actual_crc : ℕ

-- `ParsedFrame parsed{}`
abbrev pub no_frame : ParsedFrame
no_frame = record {
  header = zero_header;
  payload_owned = [];
  valid = false;
  expected_crc = 0;
  actual_crc = 0;
}

unfoldable pub header_ptr : ParsedFrame → Option FrameHeader
header_ptr p = if p.valid then some p.header else none

unfoldable pub payload : ParsedFrame → List ℕ
payload p = p.payload_owned

unfoldable pub align_up : ℕ → ℕ → ℕ
align_up value alignment = bit_and (sub64 (add64 value alignment) 1) (not64 (sub64 alignment 1))

unfoldable pub payload_size_fits : ℕ → Bool
payload_size_fits payload_size = leb payload_size (2 ^ 32 - 1)

unfoldable pub encoded_frame_size : ℕ → ℕ
encoded_frame_size payload_size =
    add64 (add64 header_size (align_up payload_size payload_alignment)) crc_size

pub record FrameLayout : Type 0 where
  pub header_size : ℕ
  pub payload_size : ℕ
  pub padded_payload_size : ℕ
  pub crc_offset : ℕ
  pub total_size : ℕ

unfoldable pub layout_for_payload : ℕ → FrameLayout
layout_for_payload payload_size = record {
  header_size = header_size;
  payload_size = payload_size;
  padded_payload_size = padded;
  crc_offset = add64 header_size padded;
  total_size = add64 (add64 header_size padded) crc_size;
}
  where
    padded : ℕ
    padded = align_up payload_size payload_alignment
