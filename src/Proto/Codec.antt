-- ===== src/Proto/Codec.antt =====
-- `parse_frame` and `encode_frame` of src/proto/codec.cpp. A span is the list of its bytes; a write
-- gives the bytes that stand there afterwards.
pub mod Frame
pub mod Encode
pub mod Protocol
pub mod Parse
pub mod RoundTrip
use jellybean.Base.{ℕ, ◌+◌, ◌-◌, ◌%◌, ◌^◌, Bool, true, false, not, ◌&&◌, ◌||◌, List, [], ◌∷◌, ◌++◌}
use jellybean.Base.{length, take, drop, replicate, copy_at, ltb, leb, ◌==◌, if◌then◌else◌}
use jellybean.Base.Words.{add64, sub64, u32, le_bytes}
use jellybean.Proto.Crc.{Target, crc32c}
use jellybean.Proto.Wire.{MessageType, type_code, FrameHeader, header_bytes, header_at, read_word}
use jellybean.Proto.Wire.{ParsedFrame, no_frame, magic, version, header_size, crc_size}
use jellybean.Proto.Wire.{FrameLayout, layout_for_payload, payload_size_fits}

-- A value with the reads of the span that it took, each by its offset and its size.
abbrev pub Reading {ℓ} : Type ℓ → Type ℓ
Reading A = A × List (ℕ × ℕ)

infixl 5 ◌>>=◌
abbrev pub ◌>>=◌ {ℓ κ} : {A : Type ℓ} {B : Type κ} → Reading A → (A → Reading B) → Reading B
(a, reads) >>= f = ((f a).0, reads ++ (f a).1)

abbrev pub unread {ℓ} : {A : Type ℓ} → A → Reading A
unread a = (a, [])

abbrev pub read_header : List ℕ → Reading FrameHeader
read_header buffer = (header_at buffer, (0, header_size) ∷ [])

abbrev pub read_crc : ℕ → List ℕ → Reading ℕ
read_crc offset buffer = (read_word offset crc_size buffer, (offset, crc_size) ∷ [])

abbrev pub read_part : ℕ → ℕ → List ℕ → Reading (List ℕ)
read_part offset size buffer = (take size (drop offset buffer), (offset, size) ∷ [])

-- The end of `parse_frame`, with the header and the layout that it has read.
unfoldable pub parse_rest : Target → List ℕ → FrameHeader → FrameLayout → Reading ParsedFrame
parse_rest t buffer header layout = do
  wire_crc ← read_crc layout.crc_offset buffer
  covered ← read_part 0 (header_size + header.payload_length) buffer
  payload_owned ← read_part header_size header.payload_length buffer
  unread (record {
    header = header;
    payload_owned = payload_owned;
    valid = crc32c t covered == wire_crc;
    expected_crc = crc32c t covered;
    actual_crc = wire_crc;
  })

-- The tests behind the first, on the header that has been read.
unfoldable pub parse_behind : Target → List ℕ → FrameHeader → Reading ParsedFrame
unfolding parse_rest
parse_behind t buffer header =
    let layout = layout_for_payload header.payload_length in
    if not (header.magic == magic) || not (header.version == version)
    then unread no_frame
    else if ltb layout.total_size (header_size + crc_size) || ltb (length buffer) layout.total_size
    then unread no_frame
    else parse_rest t buffer header layout

unfoldable pub reading_frame : Target → List ℕ → Reading ParsedFrame
unfolding parse_behind
reading_frame t buffer =
    if ltb (length buffer) (header_size + crc_size)
    then unread no_frame
    else (do header ← read_header buffer; parse_behind t buffer header)

unfoldable pub parse_frame : Target → List ℕ → ParsedFrame
unfolding reading_frame
parse_frame t buffer = (reading_frame t buffer).0

-- The header that `encode_frame` fills in.
unfoldable pub frame_header : MessageType → ℕ → ℕ → ℕ → List ℕ → FrameHeader
frame_header type flags actor_id message_id payload = record {
  magic = magic;
  version = version;
  type = type_code type;
  flags = flags;
  reserved = 0;
  payload_length = u32 (length payload);
  actor_id = actor_id;
  message_id = message_id;
}

-- The four writes of `encode_frame`, in its order; the checksum is read back from the buffer.
unfoldable pub write_frame : Target → List ℕ → FrameHeader → List ℕ → FrameLayout → List ℕ
write_frame t buffer header payload layout =
    let n = length payload in
    let with_header = copy_at 0 (header_bytes header) buffer in
    let with_payload = copy_at header_size payload with_header in
    let with_padding =
      copy_at (header_size + n) (replicate (sub64 layout.padded_payload_size n) 0) with_payload in
    copy_at layout.crc_offset (le_bytes 4 (crc32c t (take (header_size + n) with_padding)))
      with_padding

-- The number of bytes written, 0 for a refusal, and the buffer afterwards.
unfoldable pub encode_frame : Target → List ℕ → MessageType → ℕ → ℕ → ℕ → List ℕ → ℕ × List ℕ
unfolding write_frame frame_header
encode_frame t buffer type flags actor_id message_id payload =
    let layout = layout_for_payload (length payload) in
    if not (payload_size_fits (length payload))
    then (0, buffer)
    else if ltb (length buffer) layout.total_size || ltb layout.total_size (header_size + crc_size)
    then (0, buffer)
    else (
      layout.total_size,
      write_frame t buffer (frame_header type flags actor_id message_id payload) payload layout,
    )

-- The overload without flags and message id.
unfoldable pub encode_simple : Target → List ℕ → MessageType → ℕ → List ℕ → ℕ × List ℕ
unfolding encode_frame
encode_simple t buffer type actor_id payload = encode_frame t buffer type 0 actor_id 0 payload
