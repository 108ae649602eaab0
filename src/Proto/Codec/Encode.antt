-- ===== src/Proto/Codec/Encode.antt =====
-- What `encode_frame` writes, and when it refuses.
use jellybean.Base.{ℕ, ◌+◌, ◌-◌, ◌^◌, ◌≤◌, ◌<◌, ◌≡◌, refl, sym, ap, ap₂, ◌∙◌, arith, ◌⊎◌, inl, inr}
use jellybean.Base.{List, [], ◌++◌, length, take, drop, replicate, copy_at, append_assoc}
use jellybean.Base.{length-drop, length-replicate, take-append_length, drop-drop}
use jellybean.Base.{Bool-cases}
use jellybean.Base.Words.{sub64}
use jellybean.Proto.Crc.{Target}
use jellybean.Proto.Wire.{
  MessageType, FrameHeader, header_bytes, layout_for_payload, encoded_frame_size,
}
use jellybean.Proto.Wire.{payload_size_fits}
use jellybean.Proto.Wire.Header.{length-header_bytes}
use jellybean.Proto.Wire.Layout.{IsLaidOut, layout-IsLaidOut, fits→lt, lt→fits}
use jellybean.Proto.Codec.{frame_header, write_frame, encode_frame}
use jellybean.Proto.Codec.Frame.{covered, padding, checksum, frame, length-covered}
use jellybean.Proto.Codec.Frame.{length-covered-padding, copy_next}

module _ (t : Target) (buffer : List ℕ) (header : FrameHeader) (payload : List ℕ)
    (small : length payload < 2 ^ 32)
    (room : encoded_frame_size (length payload) ≤ length buffer) where
  laid : IsLaidOut (length payload)
  laid = layout-IsLaidOut (length payload) small

  -- How far the padded payload reaches into the buffer.
  reach : 32 + (layout_for_payload (length payload)).padded_payload_size + 4 ≤ length buffer
  reach = omega (arith, laid.crc_at, laid.ends_at, laid.encoded)

  pad : ℕ
  pad = (layout_for_payload (length payload)).padded_payload_size - length payload

  pad_eq : sub64 (layout_for_payload (length payload)).padded_payload_size (length payload) ≡ pad
  unfolding pad
  pad_eq = omega (arith, laid.holds, laid.tight)

  -- The bytes after each of the first three writes.
  with_header : copy_at 0 (header_bytes header) buffer ≡ header_bytes header ++ drop 32 buffer
  with_header =
      copy_next 0 [] (header_bytes header) buffer refl
        (omega (arith, length-header_bytes header, reach))
      ∙ ap (λ k. header_bytes header ++ drop k buffer) (length-header_bytes header)

  with_payload :
      copy_at 32 payload (header_bytes header ++ drop 32 buffer)
      ≡ covered header payload ++ drop (32 + length payload) buffer
  with_payload =
      copy_next 32 (header_bytes header) payload (drop 32 buffer) (sym (length-header_bytes header))
        (omega (arith, length-drop 32 buffer, reach, laid.holds))
      ∙ ap (λ r. covered header payload ++ r) (drop-drop 32 (length payload) buffer)

  with_padding :
      copy_at
        (32 + length payload)
        (replicate
          (sub64 (layout_for_payload (length payload)).padded_payload_size (length payload))
          0)
        (covered header payload ++ drop (32 + length payload) buffer)
      ≡ (covered header payload ++ padding payload) ++ drop (32 + length payload + pad) buffer
  unfolding pad
  with_padding =
      ap
        (λ k.
          copy_at (32 + length payload) (replicate k 0)
            (covered header payload ++ drop (32 + length payload) buffer))
        pad_eq
      ∙ copy_next (32 + length payload) (covered header payload) (padding payload)
          (drop (32 + length payload) buffer) (sym (length-covered header payload))
          (omega (
            arith,
            length-drop (32 + length payload) buffer,
            reach,
            laid.holds,
            length-replicate {A = ℕ} pad 0,
          ))
      ∙ ap (λ r. (covered header payload ++ padding payload) ++ r)
          (drop-drop (32 + length payload) (length (padding payload)) buffer
            ∙ ap (λ k. drop (32 + length payload + k) buffer) (length-replicate {A = ℕ} pad 0))

  -- The checksum is taken of the header and the payload that stand in the buffer.
  read_back :
      take
        (32 + length payload)
        ((covered header payload ++ padding payload) ++ drop (32 + length payload + pad) buffer)
      ≡ covered header payload
  read_back =
      ap (take (32 + length payload)) (
        append_assoc (covered header payload) (padding payload)
          (drop (32 + length payload + pad) buffer))
      ∙ ap
          (λ k. take k (
            covered header payload ++ (padding payload ++ drop (32 + length payload + pad) buffer)))
          (sym (length-covered header payload))
      ∙ take-append_length (covered header payload)
          (padding payload ++ drop (32 + length payload + pad) buffer)

  with_checksum :
      copy_at
        (layout_for_payload (length payload)).crc_offset
        (checksum t header payload)
        ((covered header payload ++ padding payload) ++ drop (32 + length payload + pad) buffer)
      ≡ frame t header payload ++ drop (encoded_frame_size (length payload)) buffer
  unfolding pad
  with_checksum =
      copy_next (layout_for_payload (length payload)).crc_offset
        (covered header payload ++ padding payload) (checksum t header payload)
        (drop (32 + length payload + pad) buffer)
        (sym (length-covered-padding header payload small))
        (omega (arith, length-drop (32 + length payload + pad) buffer, reach, laid.holds))
      ∙ ap₂ ◌++◌
          (append_assoc (covered header payload) (padding payload) (checksum t header payload))
          (drop-drop (32 + length payload + pad) 4 buffer
            ∙ ap (λ k. drop k buffer)
                (omega (arith, laid.holds, laid.crc_at, laid.ends_at, laid.encoded)))

  pub write_frame_lem :
      write_frame t buffer header payload (layout_for_payload (length payload))
      ≡ frame t header payload ++ drop (encoded_frame_size (length payload)) buffer
  unfolding write_frame
  write_frame_lem = rw (with_header, with_payload, with_padding, read_back) with_checksum

-- The frame of the header that `encode_frame` fills in.
pub encode_frame-frame :
    (t : Target) (buffer : List ℕ) (type : MessageType) (flags actor_id message_id : ℕ)
    (payload : List ℕ)
    → length payload < 2 ^ 32
    → encoded_frame_size (length payload) ≤ length buffer
    → encode_frame t buffer type flags actor_id message_id payload ≡ (
      encoded_frame_size (length payload),
      frame t (frame_header type flags actor_id message_id payload) payload
          ++ drop (encoded_frame_size (length payload)) buffer,
    )
unfolding encode_frame
encode_frame-frame t buffer type flags actor_id message_id payload small room = ground (
  arith,
  lt→fits (length payload) small,
  laid.encoded,
  laid.crc_at,
  laid.ends_at,
  write_frame_lem t buffer (frame_header type flags actor_id message_id payload) payload small room,
)
  where
    laid : IsLaidOut (length payload)
    laid = layout-IsLaidOut (length payload) small

-- Without that room, or with a payload too large for its 32 bits, `encode_frame` returns 0 and
-- writes nothing.
pub encode_frame-refuses :
    (t : Target) (buffer : List ℕ) (type : MessageType) (flags actor_id message_id : ℕ)
    (payload : List ℕ)
    → (2 ^ 32 ≤ length payload) ⊎ (length buffer < encoded_frame_size (length payload))
    → encode_frame t buffer type flags actor_id message_id payload ≡ (0, buffer)
unfolding encode_frame
encode_frame-refuses t buffer type flags actor_id message_id payload why =
    elim (Bool-cases (payload_size_fits (length payload))) [
      | inl fits ↦ ground (
        arith,
        fits,
        fits→lt (length payload) fits,
        (layout-IsLaidOut (length payload) (fits→lt (length payload) fits)).encoded,
      )
      | inr big ↦ ground (arith, big)
    ]
