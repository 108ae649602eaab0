-- ===== src/Proto/Codec/Parse.antt =====
-- What `parse_frame` accepts, and what it reads.
use jellybean.Base.{ℕ, zero, suc, ◌+◌, ◌^◌, ◌≤◌, ◌<◌, ◌≡◌, ◌↔◌, sym, ap, ap₂, ◌∙◌, ◌⊎◌, arith}
use jellybean.Base.{List, [], ◌∷◌, ◌++◌, length, take, drop, length-take, length-drop, append_assoc}
use jellybean.Base.{true, ◌==◌, take-append_length, drop-append_length, length-append}
use jellybean.Base.Words.{le_bytes, of_le_bytes, of_le_bytes-le_bytes, Bytes}
use native.Mathlib.Nat.{pow-suc}
use jellybean.Proto.Crc.{Target, crc32c}
use jellybean.Proto.Wire.{FrameHeader, header_bytes, header_at, read_word, layout_for_payload}
use jellybean.Proto.Wire.{magic, version, encoded_frame_size, ParsedFrame, no_frame}
use jellybean.Proto.Wire.Header.{Fits, header_at-header_bytes, length-header_bytes}
use jellybean.Proto.Wire.Layout.{IsLaidOut, layout-IsLaidOut}
use jellybean.Proto.Codec.{reading_frame, parse_frame}
use jellybean.Proto.Codec.Frame.{covered, padding, length-covered, length-covered-padding}

Bytes-drop : (n : ℕ) (xs : List ℕ) → Bytes xs → Bytes (drop n xs)
Bytes-drop zero xs h = h
Bytes-drop (suc n) [] h = tt
Bytes-drop (suc n) (x ∷ xs) h = Bytes-drop n xs h.1

word-lt : (k : ℕ) (xs : List ℕ) → Bytes xs → of_le_bytes (take k xs) < 256 ^ k
word-lt zero xs h = omega arith
word-lt (suc k) [] h = omega (arith, pow-suc 256 k, word-lt k [] tt)
word-lt (suc k) (x ∷ xs) h = omega (arith, pow-suc 256 k, word-lt k xs h.1)

-- A buffer that holds a frame: the header is there and carries the magic number and the version,
-- the frame that it announces lies in the buffer, and the checksum in the frame is that of the
-- header and the payload.
pub record Accepts (t : Target) (buffer : List ℕ) : Type 0 where
  pub has_header : 36 ≤ length buffer
  pub has_magic : (header_at buffer).magic ≡ magic
  pub has_version : (header_at buffer).version ≡ version
  pub has_frame : encoded_frame_size (header_at buffer).payload_length ≤ length buffer
  pub has_checksum :
      crc32c t (take (32 + (header_at buffer).payload_length) buffer)
      ≡ read_word (layout_for_payload (header_at buffer).payload_length).crc_offset 4 buffer

announced : (buffer : List ℕ) → Bytes buffer → IsLaidOut (header_at buffer).payload_length
unfolding header_at
announced buffer ok =
    layout-IsLaidOut (header_at buffer).payload_length
      (word-lt 4 (drop 12 buffer) (Bytes-drop 12 buffer ok))

-- `parse_frame` reports a valid frame exactly for the buffers that hold one.
pub parse_frame-valid :
    (t : Target) (buffer : List ℕ)
    → Bytes buffer
    → ((parse_frame t buffer).valid ≡ true) ↔ Accepts t buffer
unfolding parse_frame
parse_frame-valid t buffer ok =
    (λ v. ground (arith, announced buffer ok), λ a. ground (arith, announced buffer ok))

-- Every read ends before the buffer does.
abbrev pub AllInside : List ℕ → List (ℕ × ℕ) → Type 0
AllInside buffer [] = Unit
AllInside buffer ((offset, size) ∷ reads) = (offset + size ≤ length buffer) × AllInside buffer reads

-- What the result has once the checks are passed, right checksum or wrong.
pub record ReadsInside (buffer : List ℕ) (p : ParsedFrame) : Type 0 where
  pub header : p.header ≡ header_at buffer
  pub whole_payload : length p.payload_owned ≡ p.header.payload_length
  pub before_crc :
      32 + p.header.payload_length ≤ (layout_for_payload p.header.payload_length).crc_offset
  pub crc_inside : (layout_for_payload p.header.payload_length).crc_offset + 4 ≤ length buffer

length-payload :
    (n : ℕ) (buffer : List ℕ) → 32 + n ≤ length buffer → length (take n (drop 32 buffer)) ≡ n
length-payload n buffer h = omega (arith, length-take n (drop 32 buffer), length-drop 32 buffer)

reading_frame-AllInside :
    (t : Target) (buffer : List ℕ) → Bytes buffer → AllInside buffer (reading_frame t buffer).1
unfolding reading_frame
reading_frame-AllInside t buffer ok = ground (arith, announced buffer ok)

parse_frame-whole :
    (t : Target) (buffer : List ℕ)
    → Bytes buffer
    → (parse_frame t buffer ≡ no_frame) ⊎ ReadsInside buffer (parse_frame t buffer)
unfolding parse_frame
parse_frame-whole t buffer ok =
    ground (arith, announced buffer ok, length-payload (header_at buffer).payload_length buffer)

-- Whatever bytes a buffer holds, each of the reads that `parse_frame` makes lies in the buffer, that
-- of the header and those behind it. Either the result is empty, or it has the header of the buffer
-- and a payload of the length that the header announces, and the checksum lies behind the payload.
pub parse_frame-ReadsInside :
    (t : Target) (buffer : List ℕ)
    → Bytes buffer
    → AllInside buffer (reading_frame t buffer).1
      × ((parse_frame t buffer ≡ no_frame) ⊎ ReadsInside buffer (parse_frame t buffer))
parse_frame-ReadsInside t buffer ok =
    (reading_frame-AllInside t buffer ok, parse_frame-whole t buffer ok)

-- The parser on a buffer that begins with a header, its payload, the padding and any checksum.
module _ (t : Target) (h : FrameHeader) (payload : List ℕ) (c : ℕ) (rest : List ℕ) (fits : Fits h)
    (c_lt : c < 2 ^ 32) (is_magic : h.magic ≡ magic) (is_version : h.version ≡ version)
    (sized : h.payload_length ≡ length payload) where
  wire : List ℕ
  wire = covered h payload ++ (padding payload ++ (le_bytes 4 c ++ rest))

  header_of_wire : header_at wire ≡ h
  unfolding wire
  header_of_wire =
      ap header_at
        (append_assoc (header_bytes h) payload (padding payload ++ (le_bytes 4 c ++ rest)))
      ∙ header_at-header_bytes h (payload ++ (padding payload ++ (le_bytes 4 c ++ rest))) fits

  small : length payload < 2 ^ 32
  small = omega (arith, sized, fits.payload_length)

  covered_of_wire : take (32 + length payload) wire ≡ covered h payload
  unfolding wire
  covered_of_wire =
      ap (λ k. take k (covered h payload ++ (padding payload ++ (le_bytes 4 c ++ rest))))
        (sym (length-covered h payload))
      ∙ take-append_length (covered h payload) (padding payload ++ (le_bytes 4 c ++ rest))

  payload_of_wire : take (length payload) (drop 32 wire) ≡ payload
  unfolding wire
  payload_of_wire =
      ap (λ xs. take (length payload) (drop 32 xs))
        (append_assoc (header_bytes h) payload (padding payload ++ (le_bytes 4 c ++ rest)))
      ∙ ap
          (λ k.
            take (length payload)
              (drop k (header_bytes h ++ (payload ++ (padding payload ++ (le_bytes 4 c ++ rest))))))
          (sym (length-header_bytes h))
      ∙ ap (take (length payload)) (
          drop-append_length (header_bytes h)
            (payload ++ (padding payload ++ (le_bytes 4 c ++ rest))))
      ∙ take-append_length payload (padding payload ++ (le_bytes 4 c ++ rest))

  crc_of_wire : read_word (layout_for_payload (length payload)).crc_offset 4 wire ≡ c
  unfolding wire
  crc_of_wire =
      ap₂ (λ k xs. read_word k 4 xs) (sym (length-covered-padding h payload small))
        (sym (append_assoc (covered h payload) (padding payload) (le_bytes 4 c ++ rest)))
      ∙ ap (λ xs. of_le_bytes (take 4 xs))
          (drop-append_length (covered h payload ++ padding payload) (le_bytes 4 c ++ rest))
      ∙ of_le_bytes-le_bytes 4 c (omega arith)

  length-wire : encoded_frame_size (length payload) ≤ length wire
  unfolding wire
  length-wire = omega (
    arith,
    ap length (append_assoc (covered h payload) (padding payload) (le_bytes 4 c ++ rest)),
    length-append (covered h payload ++ padding payload) (le_bytes 4 c ++ rest),
    length-covered-padding h payload small,
    (layout-IsLaidOut (length payload) small).encoded,
    (layout-IsLaidOut (length payload) small).ends_at,
  )

  parse_wire : parse_frame t wire ≡ record {
    header = h;
    payload_owned = payload;
    valid = crc32c t (covered h payload) == c;
    expected_crc = crc32c t (covered h payload);
    actual_crc = c;
  }
  unfolding parse_frame
  parse_wire = ground (
    arith,
    header_of_wire,
    covered_of_wire,
    payload_of_wire,
    crc_of_wire,
    length-wire,
    layout-IsLaidOut (length payload) small,
  )

  -- The header and the payload are read back, and the frame is valid if the checksum is right.
  pub parse_frame-wire :
      parse_frame t (covered h payload ++ (padding payload ++ (le_bytes 4 c ++ rest))) ≡ record {
        header = h;
        payload_owned = payload;
        valid = crc32c t (covered h payload) == c;
        expected_crc = crc32c t (covered h payload);
        actual_crc = c;
      }
  unfolding wire
  parse_frame-wire = parse_wire
