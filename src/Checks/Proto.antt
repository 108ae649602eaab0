-- ===== src/Checks/Proto.antt =====
-- include/jellybean/proto and src/proto/codec.cpp at the inputs of tests/unit/test_proto.cpp.
use jellybean.Base.{
  ℕ, ◌≤◌, ◌<◌, ◌≡◌, refl, arith, List, [], ◌∷◌, ◌++◌, set, drop, length, replicate,
}
use jellybean.Base.{some, none, true, inr, ◌↔◌, ◌⊎◌}
use jellybean.Base.Words.{le_bytes, le_bytes-of_le_bytes}
use jellybean.Base.{ap}
use jellybean.Base.Bits.{IsPowerOfTwo}
use jellybean.Proto.Wire.{align_up, encoded_frame_size, header_ptr, payload, MessageType, no_frame}
use jellybean.Proto.Crc.{Target, crc32c, crc32c_software, shift_bit, shift_bits}
use jellybean.Proto.Crc.Table.{
  register, crc32c_register, crc32c_software-eq-register, crc32c-portable-eq-sse42,
  IsCrc32Instruction,
}
use jellybean.Proto.Codec.{encode_frame, reading_frame, parse_frame, frame_header}
use jellybean.Proto.Codec.Encode.{encode_frame-refuses}
use jellybean.Proto.Codec.Protocol.{protocol_frame, encode_frame-writes}
use jellybean.Proto.Codec.Parse.{
  Accepts, AllInside, ReadsInside, parse_frame-valid, parse_frame-ReadsInside,
}
use jellybean.Proto.Codec.RoundTrip.{parse_frame-encode_frame, parse_frame-detects_byte}

abbrev bytes : List ℕ
bytes = 0x11 ∷ 0x22 ∷ 0x33 ∷ 0x44 ∷ 0x55 ∷ []

abbrev buffer : List ℕ
buffer = replicate 44 0

abbrev digits : List ℕ
digits = 49 ∷ 50 ∷ 51 ∷ 52 ∷ 53 ∷ 54 ∷ 55 ∷ 56 ∷ 57 ∷ []

-- The check value of CRC-32C: of the nine digits.
crc32c_check : crc32c_software digits ≡ 0xE3069283
unfolding crc32c_software shift_bit shift_bits
crc32c_check = refl

frame_size : encoded_frame_size 5 ≡ 44
unfolding encoded_frame_size align_up
frame_size = refl

enough : encoded_frame_size 5 ≤ 44
unfolding encoded_frame_size align_up
enough = omega arith

eight : IsPowerOfTwo 8
eight = record { nonzero = omega arith; one_bit = refl; small = omega arith }

crc32c_software-eq-register_example : crc32c_software digits ≡ crc32c_register digits
crc32c_software-eq-register_example = crc32c_software-eq-register digits (omega arith)

-- Instructions that do what the manual says: the register itself, fed with the bytes of the word.
narrow : ℕ → ℕ → ℕ
narrow crc b = register crc (b ∷ [])

wide : ℕ → ℕ → ℕ
wide crc w = register crc (le_bytes 8 w)

instructions : IsCrc32Instruction wide narrow
unfolding wide narrow
instructions = record {
  byte = λ crc b hc hb. refl;
  word = λ crc a b c d e f g h hc ok.
      ap (register crc) (le_bytes-of_le_bytes (a ∷ b ∷ c ∷ d ∷ e ∷ f ∷ g ∷ h ∷ []) ok);
}

crc32c-portable-eq-sse42_example :
    crc32c Target.portable digits ≡ crc32c (Target.sse42 wide narrow) digits
crc32c-portable-eq-sse42_example = crc32c-portable-eq-sse42 instructions digits (omega arith)

encode_frame-writes_example :
    let f = protocol_frame Target.portable MessageType.actor_message 7 42 99 bytes in
    encode_frame Target.portable buffer MessageType.actor_message 7 42 99 bytes
    ≡ (length f, f ++ drop (length f) buffer)
encode_frame-writes_example =
    encode_frame-writes Target.portable buffer MessageType.actor_message 7 42 99 bytes (omega arith)
      (omega arith)

short : 43 < encoded_frame_size 5
unfolding encoded_frame_size align_up
short = omega arith

encode_frame-refuses_example :
    encode_frame Target.portable (replicate 43 0) MessageType.actor_message 7 42 99 bytes
    ≡ (0, replicate 43 0)
encode_frame-refuses_example =
    encode_frame-refuses Target.portable (replicate 43 0) MessageType.actor_message 7 42 99 bytes
      (inr short)

parse_frame-valid_example :
    ((parse_frame Target.portable buffer).valid ≡ true) ↔ Accepts Target.portable buffer
parse_frame-valid_example = parse_frame-valid Target.portable buffer (omega arith)

parse_frame-ReadsInside_example :
    AllInside buffer (reading_frame Target.portable buffer).1
    × ((parse_frame Target.portable buffer ≡ no_frame)
        ⊎ ReadsInside buffer (parse_frame Target.portable buffer))
parse_frame-ReadsInside_example = parse_frame-ReadsInside Target.portable buffer (omega arith)

parse_frame-encode_frame_example :
    let p =
      parse_frame Target.portable
        (encode_frame Target.portable buffer MessageType.actor_message 7 42 99 bytes).1 in
    (header_ptr p ≡ some (frame_header MessageType.actor_message 7 42 99 bytes))
    × (payload p ≡ bytes)
parse_frame-encode_frame_example =
    parse_frame-encode_frame Target.portable buffer MessageType.actor_message 7 42 99 bytes
      (omega arith) (omega arith) (omega arith) (omega arith) enough

parse_frame-detects_byte_example :
    header_ptr (
      parse_frame Target.portable (
        set
          (encode_frame Target.portable buffer MessageType.actor_message 7 42 99 bytes).1
          33
          0x23))
    ≡ none
parse_frame-detects_byte_example =
    parse_frame-detects_byte Target.portable buffer MessageType.actor_message 7 42 99 (0x11 ∷ [])
      (0x33 ∷ 0x44 ∷ 0x55 ∷ []) 0x22 0x23 tt (omega arith) (omega arith) (omega arith) (omega arith)
      (omega arith) (omega arith) (omega arith) (omega arith) (omega arith) enough
