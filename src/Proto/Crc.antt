-- ===== src/Proto/Crc.antt =====
-- CRC-32C as src/proto/codec.cpp computes it: the table, the loop over the table, and the loop over
-- the processor's instructions, which a build for SSE 4.2 takes. The instructions are no code of
-- the repository: they are the arguments of `sse42`.
pub mod Shift
pub mod Table
pub mod Detect
use jellybean.Base.{ℕ, zero, suc, ◌+◌, ◌-◌, ◌/◌, ◌%◌, ◌^◌, List, [], ◌∷◌, ◌==◌, if◌then◌else◌}
use jellybean.Base.{bit_and, bit_xor, get_or}
use jellybean.Base.Words.{u8, u32, not32, of_le_bytes}

abbrev pub crc32c_polynomial : ℕ
crc32c_polynomial = 0x82F63B78

abbrev pub table_size : ℕ
table_size = 256

abbrev pub bits_per_byte : ℕ
bits_per_byte = 8

-- One round of the inner loop of `make_crc32c_table`.
unfoldable pub shift_bit : ℕ → ℕ
shift_bit crc = if bit_and crc 1 == 0 then crc / 2 else bit_xor (crc / 2) crc32c_polynomial

unfoldable pub shift_bits : ℕ → ℕ → ℕ
shift_bits zero crc = crc
shift_bits (suc n) crc = shift_bits n (shift_bit crc)

-- The outer loop, from entry `i` on with `n` entries to go.
unfoldable pub table_from : ℕ → ℕ → List ℕ
table_from i zero = []
table_from i (suc n) = shift_bits bits_per_byte i ∷ table_from (i + 1) n

unfoldable pub make_crc32c_table : List ℕ
unfolding table_from
make_crc32c_table = table_from 0 table_size

-- The loop of `crc32c_software`.
unfoldable pub software_loop : ℕ → List ℕ → ℕ
unfolding make_crc32c_table
software_loop crc [] = crc
software_loop crc (value ∷ bytes) =
    software_loop
      (bit_xor (crc / 2 ^ 8) (get_or make_crc32c_table (u8 (bit_and (bit_xor crc value) 0xFF)) 0))
      bytes

unfoldable pub crc32c_software : List ℕ → ℕ
unfolding software_loop
crc32c_software bytes = not32 (software_loop 0xFFFFFFFF bytes)

pub data Target : Type 0 where
  portable : Target
  sse42 : (mm_crc32_u64 mm_crc32_u8 : ℕ → ℕ → ℕ) → Target

-- The two loops of the SSE 4.2 path: eight bytes at a time while there are as many, then one.
unfoldable pub hardware_loop : (ℕ → ℕ → ℕ) → (ℕ → ℕ → ℕ) → ℕ → List ℕ → ℕ
hardware_loop wide narrow crc (a ∷ b ∷ c ∷ d ∷ e ∷ f ∷ g ∷ h ∷ rest) =
    hardware_loop wide narrow (u32 (wide crc (of_le_bytes (a ∷ b ∷ c ∷ d ∷ e ∷ f ∷ g ∷ h ∷ []))))
      rest
hardware_loop wide narrow crc (p ∷ rest) = hardware_loop wide narrow (u32 (narrow crc p)) rest
hardware_loop wide narrow crc [] = crc

unfoldable pub crc32c : Target → List ℕ → ℕ
unfolding crc32c_software hardware_loop
crc32c Target.portable bytes = crc32c_software bytes
crc32c (Target.sse42 wide narrow) bytes = not32 (hardware_loop wide narrow 0xFFFFFFFF bytes)
