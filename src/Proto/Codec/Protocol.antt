-- ===== src/Proto/Codec/Protocol.antt =====
-- A frame, byte by byte, as include/jellybean/proto/wire.hpp and frame.hpp lay it out, without the
-- structs and the sizes that the code computes with.
use jellybean.Base.{ℕ, ◌-◌, ◌%◌, ◌^◌, ◌≤◌, ◌<◌, ◌≡◌, sym, ap, ap₂, ◌∙◌, arith}
use jellybean.Base.{List, ◌∷◌, ◌++◌, length, drop, replicate}
use jellybean.Base.Words.{le_bytes}
use jellybean.Proto.Crc.{Target, crc32c}
use jellybean.Proto.Wire.{MessageType, type_code, header_bytes, encoded_frame_size}
use jellybean.Proto.Wire.Layout.{layout-IsLaidOut}
use jellybean.Proto.Codec.{frame_header, encode_frame}
use jellybean.Proto.Codec.Frame.{padding, frame, length-frame}
use jellybean.Proto.Codec.Encode.{encode_frame-frame}

-- The letters of the magic number from its low end, version 1, the type, the flags, two bytes that
-- are reserved, the size of the payload, the actor and the message.
abbrev pub protocol_header : MessageType → ℕ → ℕ → ℕ → ℕ → List ℕ
protocol_header type flags actor_id message_id size =
    0x31
    ∷ 0x4C
    ∷ 0x45
    ∷ 0x48
    ∷ 1
    ∷ 0
    ∷ (le_bytes 2 (type_code type)
        ++ (le_bytes 2 flags
            ++ (0 ∷ 0 ∷ (le_bytes 4 size ++ (le_bytes 8 actor_id ++ le_bytes 8 message_id)))))

-- Header, payload, zeros up to a multiple of 8, and the checksum of the header and the payload.
abbrev pub protocol_frame : Target → MessageType → ℕ → ℕ → ℕ → List ℕ → List ℕ
protocol_frame t type flags actor_id message_id payload =
    let n = length payload in
    let covered = protocol_header type flags actor_id message_id n ++ payload in
    covered ++ (replicate ((8 - n % 8) % 8) 0 ++ le_bytes 4 (crc32c t covered))

module _ (type : MessageType) (flags actor_id message_id : ℕ) (payload : List ℕ)
    (small : length payload < 2 ^ 32) where
  header_bytes-protocol_header :
      header_bytes (frame_header type flags actor_id message_id payload)
      ≡ protocol_header type flags actor_id message_id (length payload)
  unfolding header_bytes frame_header
  header_bytes-protocol_header =
      ap (protocol_header type flags actor_id message_id)
        (let e : length payload % 2 ^ 32 ≡ length payload = omega (arith, small) in e)

  padding-zeros : padding payload ≡ replicate ((8 - length payload % 8) % 8) 0
  padding-zeros =
      let laid = layout-IsLaidOut (length payload) small in
      ap (λ k. replicate k 0) (omega (arith, laid.holds, laid.tight, laid.aligned))

  frame-protocol_frame :
      (t : Target)
      → frame t (frame_header type flags actor_id message_id payload) payload
        ≡ protocol_frame t type flags actor_id message_id payload
  frame-protocol_frame t =
      ap₂
        (λ header zeros.
          (header ++ payload) ++ (zeros ++ le_bytes 4 (crc32c t (header ++ payload))))
        header_bytes-protocol_header padding-zeros

  length-protocol_frame :
      (t : Target)
      → length (protocol_frame t type flags actor_id message_id payload)
        ≡ encoded_frame_size (length payload)
  length-protocol_frame t =
      ap length (sym (frame-protocol_frame t))
      ∙ length-frame t (frame_header type flags actor_id message_id payload) payload small
      ∙ sym (layout-IsLaidOut (length payload) small).encoded

-- A payload whose size fits 32 bits and a buffer with room for its frame: `encode_frame` returns the
-- size of the frame that the protocol describes, that frame stands at the start of the buffer, byte
-- for byte, and the bytes behind it are as they were.
pub encode_frame-writes :
    (t : Target) (buffer : List ℕ) (type : MessageType) (flags actor_id message_id : ℕ)
    (payload : List ℕ)
    → length payload < 2 ^ 32
    → length (protocol_frame t type flags actor_id message_id payload) ≤ length buffer
    → let f = protocol_frame t type flags actor_id message_id payload in
      encode_frame t buffer type flags actor_id message_id payload
      ≡ (length f, f ++ drop (length f) buffer)
encode_frame-writes t buffer type flags actor_id message_id payload small room =
    let size = length-protocol_frame type flags actor_id message_id payload small t in
    encode_frame-frame t buffer type flags actor_id message_id payload small
      (omega (arith, size, room))
    ∙ ap₂ (λ k f. (k, f ++ drop k buffer)) (sym size)
        (frame-protocol_frame type flags actor_id message_id payload small t)
