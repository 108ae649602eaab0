-- ===== src/Proto/Wire/Layout.antt =====
-- Where the parts of a frame lie, for a payload whose size fits 32 bits: nothing wraps.
use jellybean.Base.{ℕ, ◌+◌, ◌-◌, ◌%◌, ◌^◌, ◌≤◌, ◌<◌, ◌≡◌, refl, arith, true, leb→le}
use jellybean.Proto.Wire.{layout_for_payload, encoded_frame_size, payload_size_fits}
use jellybean.Proto.Wire.{payload_alignment}
use jellybean.Base.Bits.{IsPowerOfTwo}
use jellybean.Proto.Wire.Align.{align_up-IsLeast}

payload_alignment-IsPowerOfTwo : IsPowerOfTwo payload_alignment
payload_alignment-IsPowerOfTwo = record {
  nonzero = omega arith;
  one_bit = refl;
  small = omega arith;
}

-- For a payload that fits, the padded size is the least multiple of 8 that holds it, the checksum
-- follows the padding, and the frame ends behind the checksum, at `encoded_frame_size`.
pub record IsLaidOut (n : ℕ) : Type 0 where
  pub holds : n ≤ (layout_for_payload n).padded_payload_size
  pub tight : (layout_for_payload n).padded_payload_size < n + 8
  pub aligned : (layout_for_payload n).padded_payload_size % 8 ≡ 0
  pub crc_at : (layout_for_payload n).crc_offset ≡ 32 + (layout_for_payload n).padded_payload_size
  pub ends_at : (layout_for_payload n).total_size ≡ (layout_for_payload n).crc_offset + 4
  pub encoded : encoded_frame_size n ≡ (layout_for_payload n).total_size

pub layout-IsLaidOut : (n : ℕ) → n < 2 ^ 32 → IsLaidOut n
unfolding layout_for_payload encoded_frame_size
layout-IsLaidOut n small =
    let (above, below, multiple) =
      align_up-IsLeast n 8 payload_alignment-IsPowerOfTwo (omega arith) in
    record {
      holds = above;
      tight = below;
      aligned = multiple;
      crc_at = omega arith;
      ends_at = omega arith;
      encoded = refl;
    }

pub fits→lt : (n : ℕ) → payload_size_fits n ≡ true → n < 2 ^ 32
unfolding payload_size_fits
fits→lt n h = omega (arith, leb→le n (2 ^ 32 - 1) h)

pub lt→fits : (n : ℕ) → n < 2 ^ 32 → payload_size_fits n ≡ true
unfolding payload_size_fits
lt→fits n h = ground arith
