-- ===== src/Proto/Codec/RoundTrip.antt =====
-- `encode_frame` and `parse_frame` together.
use jellybean.Base.{ℕ, ◌+◌, ◌-◌, ◌^◌, ◌≤◌, ◌<◌, ◌≡◌, ◌≢◌, refl, sym, ap, ap₂, ◌∙◌, arith}
use jellybean.Base.{
  List, ◌∷◌, ◌++◌, length, set, drop, replicate, append_assoc, length-append, set-append_length,
}
use jellybean.Base.{some, none, ◌==◌}
use jellybean.Base.Words.{le_bytes, Bytes, Bytes-append}
use jellybean.Proto.Crc.{Target, crc32c}
use jellybean.Proto.Crc.Table.{IsFaithful, crc32c-lt}
use jellybean.Proto.Crc.Detect.{crc32c-detects_byte}
use jellybean.Proto.Wire.{
  MessageType, type_code, FrameHeader, header_bytes, encoded_frame_size, header_ptr, payload, magic,
  version, layout_for_payload,
}
use jellybean.Proto.Wire.Header.{Fits, length-header_bytes}
use jellybean.Proto.Codec.{frame_header, encode_frame, parse_frame}
use jellybean.Proto.Codec.Frame.{covered, padding, checksum}
use jellybean.Proto.Codec.Encode.{encode_frame-frame}
use jellybean.Proto.Codec.Parse.{parse_frame-wire}

type_code-lt : (type : MessageType) → type_code type < 2 ^ 16
type_code-lt type = ground arith

frame_header-Fits :
    (type : MessageType) (flags actor_id message_id : ℕ) (payload : List ℕ)
    → flags < 2 ^ 16
    → actor_id < 2 ^ 64
    → message_id < 2 ^ 64
    → Fits (frame_header type flags actor_id message_id payload)
unfolding frame_header
frame_header-Fits type flags actor_id message_id payload hf ha hm = record {
  magic = omega arith;
  version = omega arith;
  type = type_code-lt type;
  flags = hf;
  reserved = omega arith;
  payload_length = omega arith;
  actor_id = ha;
  message_id = hm;
}

sized :
    (type : MessageType) (flags actor_id message_id : ℕ) (payload : List ℕ)
    → length payload < 2 ^ 32
    → (frame_header type flags actor_id message_id payload).payload_length ≡ length payload
unfolding frame_header
sized type flags actor_id message_id payload small = omega arith

-- The parser on what `encode_frame` has written, with any header and payload in their place: the
-- checksum is still the one written.
parse_frame-rewritten :
    (t : Target) (buffer : List ℕ) (type : MessageType) (flags actor_id message_id : ℕ)
    (bytes bytes' : List ℕ)
    → flags < 2 ^ 16
    → actor_id < 2 ^ 64
    → message_id < 2 ^ 64
    → length bytes < 2 ^ 32
    → length bytes' ≡ length bytes
    → let h = frame_header type flags actor_id message_id bytes in
      parse_frame t (
        covered h bytes'
        ++ ((padding bytes ++ checksum t h bytes)
            ++ drop (encoded_frame_size (length bytes)) buffer))
      ≡ record {
        header = h;
        payload_owned = bytes';
        valid = crc32c t (covered h bytes') == crc32c t (covered h bytes);
        expected_crc = crc32c t (covered h bytes');
        actual_crc = crc32c t (covered h bytes);
      }
unfolding frame_header
parse_frame-rewritten t buffer type flags actor_id message_id bytes bytes' hf ha hm small same =
    ap (parse_frame t) (ap (λ r. covered h bytes' ++ r) regroup)
    ∙ parse_frame-wire t h bytes' crc rest
        (frame_header-Fits type flags actor_id message_id bytes hf ha hm)
        (crc32c-lt t (covered h bytes)) is_magic is_version
        (sized type flags actor_id message_id bytes small ∙ sym same)
  where
    h : FrameHeader
    h = frame_header type flags actor_id message_id bytes

    crc : ℕ
    crc = crc32c t (covered h bytes)

    rest : List ℕ
    rest = drop (encoded_frame_size (length bytes)) buffer

    is_magic : h.magic ≡ magic
    is_magic = refl

    is_version : h.version ≡ version
    is_version = refl

    regroup :
        (padding bytes ++ checksum t h bytes) ++ rest ≡ padding bytes' ++ (le_bytes 4 crc ++ rest)
    regroup =
        append_assoc (padding bytes) (le_bytes 4 crc) rest
        ∙ ap
            (λ k.
              replicate ((layout_for_payload k).padded_payload_size - k) 0
              ++ (le_bytes 4 crc ++ rest))
            (sym same)

parse_frame-written :
    (t : Target) (buffer : List ℕ) (type : MessageType) (flags actor_id message_id : ℕ)
    (bytes : List ℕ)
    → flags < 2 ^ 16
    → actor_id < 2 ^ 64
    → message_id < 2 ^ 64
    → length bytes < 2 ^ 32
    → encoded_frame_size (length bytes) ≤ length buffer
    → let h = frame_header type flags actor_id message_id bytes in
      parse_frame t (encode_frame t buffer type flags actor_id message_id bytes).1 ≡ record {
        header = h;
        payload_owned = bytes;
        valid = crc32c t (covered h bytes) == crc32c t (covered h bytes);
        expected_crc = crc32c t (covered h bytes);
        actual_crc = crc32c t (covered h bytes);
      }
parse_frame-written t buffer type flags actor_id message_id bytes hf ha hm small room =
    ap (λ r. parse_frame t r.1)
      (encode_frame-frame t buffer type flags actor_id message_id bytes small room)
    ∙ ap (parse_frame t) (
        append_assoc (covered h bytes) (padding bytes ++ checksum t h bytes)
          (drop (encoded_frame_size (length bytes)) buffer))
    ∙ parse_frame-rewritten t buffer type flags actor_id message_id bytes bytes hf ha hm small refl
  where
    h : FrameHeader
    h = frame_header type flags actor_id message_id bytes

-- What `encode_frame` writes into a large enough buffer, `parse_frame` reads back: the header
-- pointer is that of the header written, the payload is the payload written, and nothing that
-- stands behind the frame matters.
pub parse_frame-encode_frame :
    (t : Target) (buffer : List ℕ) (type : MessageType) (flags actor_id message_id : ℕ)
    (bytes : List ℕ)
    → flags < 2 ^ 16
    → actor_id < 2 ^ 64
    → message_id < 2 ^ 64
    → length bytes < 2 ^ 32
    → encoded_frame_size (length bytes) ≤ length buffer
    → let p = parse_frame t (encode_frame t buffer type flags actor_id message_id bytes).1 in
      (header_ptr p ≡ some (frame_header type flags actor_id message_id bytes))
      × (payload p ≡ bytes)
unfolding header_ptr payload
parse_frame-encode_frame t buffer type flags actor_id message_id bytes hf ha hm small room =
    ground
      (arith, parse_frame-written t buffer type flags actor_id message_id bytes hf ha hm small room)

Bytes-header_bytes : (h : FrameHeader) → Bytes (header_bytes h)
unfolding header_bytes
Bytes-header_bytes h = omega arith

-- The buffer with one byte of the payload set anew.
corrupted :
    (t : Target) (h : FrameHeader) (pre post tail : List ℕ) (a b : ℕ)
    → set ((covered h (pre ++ (a ∷ post)) ++ tail)) (32 + length pre) b
      ≡ covered h (pre ++ (b ∷ post)) ++ tail
corrupted t h pre post tail a b =
    ap₂ (λ xs k. set xs k b) (split a) (sym front_length)
    ∙ set-append_length (header_bytes h ++ pre) a b (post ++ tail)
    ∙ sym (split b)
  where
    front_length : length (header_bytes h ++ pre) ≡ 32 + length pre
    front_length = omega (arith, length-append (header_bytes h) pre, length-header_bytes h)

    split :
        (c : ℕ)
        → covered h (pre ++ (c ∷ post)) ++ tail ≡ (header_bytes h ++ pre) ++ (c ∷ (post ++ tail))
    split c =
        ap (λ xs. xs ++ tail) (sym (append_assoc (header_bytes h) pre (c ∷ post)))
        ∙ append_assoc (header_bytes h ++ pre) (c ∷ post) tail

-- If one byte of the payload is changed in the buffer after `encode_frame`, `parse_frame` gives no
-- header pointer. The build's checksum instructions, if it uses any, do what the manual says.
pub parse_frame-detects_byte :
    (t : Target) (buffer : List ℕ) (type : MessageType) (flags actor_id message_id : ℕ)
    (pre post : List ℕ) (a b : ℕ)
    → IsFaithful t
    → flags < 2 ^ 16
    → actor_id < 2 ^ 64
    → message_id < 2 ^ 64
    → Bytes pre
    → Bytes post
    → a < 256
    → b < 256
    → a ≢ b
    → length (pre ++ (a ∷ post)) < 2 ^ 32
    → encoded_frame_size (length (pre ++ (a ∷ post))) ≤ length buffer
    → header_ptr (
        parse_frame t (
          set
            (encode_frame t buffer type flags actor_id message_id (pre ++ (a ∷ post))).1
            (32 + length pre)
            b))
      ≡ none
unfolding header_ptr
parse_frame-detects_byte t buffer type flags actor_id message_id pre post a b good hf ha hm hpre
      hpost la lb ne small room =
    ground (arith, parsed, differs)
  where
    bytes : List ℕ
    bytes = pre ++ (a ∷ post)

    h : FrameHeader
    h = frame_header type flags actor_id message_id bytes

    front : Bytes (header_bytes h ++ pre)
    front = Bytes-append (header_bytes h) pre (Bytes-header_bytes h) hpre

    differs : crc32c t (covered h (pre ++ (b ∷ post))) ≢ crc32c t (covered h bytes)
    differs e =
        crc32c-detects_byte t (header_bytes h ++ pre) post b a good front hpost lb la
          (λ q. ne (sym q))
          (ap (crc32c t) (append_assoc (header_bytes h) pre (b ∷ post))
            ∙ e
            ∙ ap (crc32c t) (sym (append_assoc (header_bytes h) pre (a ∷ post))))

    parsed :
        parse_frame t (
          set
            (encode_frame t buffer type flags actor_id message_id (pre ++ (a ∷ post))).1
            (32 + length pre)
            b)
        ≡ record {
          header = h;
          payload_owned = pre ++ (b ∷ post);
          valid = crc32c t (covered h (pre ++ (b ∷ post))) == crc32c t (covered h bytes);
          expected_crc = crc32c t (covered h (pre ++ (b ∷ post)));
          actual_crc = crc32c t (covered h bytes);
        }
    parsed =
        ap (λ r. parse_frame t (set r.1 (32 + length pre) b))
          (encode_frame-frame t buffer type flags actor_id message_id bytes small room)
        ∙ ap (λ xs. parse_frame t (set xs (32 + length pre) b))
            (append_assoc (covered h bytes) (padding bytes ++ checksum t h bytes)
              (drop (encoded_frame_size (length bytes)) buffer))
        ∙ ap (parse_frame t) (corrupted t h pre post _ a b)
        ∙ parse_frame-rewritten t buffer type flags actor_id message_id bytes (pre ++ (b ∷ post)) hf
            ha hm small (omega (arith, length-append pre (a ∷ post), length-append pre (b ∷ post)))
