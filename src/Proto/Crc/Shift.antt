-- ===== src/Proto/Crc/Shift.antt =====
-- One round of the shift register: it is linear for `^`, and it loses nothing.
use jellybean.Base.{ℕ, zero, suc, ◌*◌, ◌/◌, ◌%◌, ◌^◌, ◌<◌, ◌≡◌, refl, sym, ap, ap₂, ◌∙◌}
use jellybean.Base.{arith, bit_xor, ◌==◌, if◌then◌else◌}
use jellybean.Base.Bits.{bit_and_mask, half-xor, xor-odd, xor_comm, xor_assoc, xor_self, xor-zero}
use jellybean.Base.Bits.{zero-xor, xor_cancel, xor-lt, shift-xor}
use jellybean.Proto.Crc.{shift_bit, shift_bits, crc32c_polynomial}

-- What the round adds: the polynomial for an odd word.
carry : ℕ → ℕ
carry x = if x % 2 == 0 then 0 else crc32c_polynomial

shift_bit_lem : (x : ℕ) → shift_bit x ≡ bit_xor (x / 2) (carry x)
unfolding shift_bit carry
shift_bit_lem x = ground (arith, bit_and_mask 1 x, xor-zero (x / 2))

carry-xor : (a b : ℕ) → carry (bit_xor a b) ≡ bit_xor (carry a) (carry b)
unfolding carry
carry-xor a b = ground (
  arith,
  xor-odd a b,
  zero-xor 0,
  zero-xor crc32c_polynomial,
  xor-zero crc32c_polynomial,
  xor_self crc32c_polynomial,
)

xor_swap : (p q r s : ℕ) → bit_xor (bit_xor p q) (bit_xor r s) ≡ bit_xor (bit_xor p r) (bit_xor q s)
xor_swap p q r s =
    xor_assoc p q (bit_xor r s)
    ∙ ap (bit_xor p)
        (sym (xor_assoc q r s) ∙ ap (λ t. bit_xor t s) (xor_comm q r) ∙ xor_assoc r q s)
    ∙ sym (xor_assoc p r (bit_xor q s))

shift_bit-xor : (a b : ℕ) → shift_bit (bit_xor a b) ≡ bit_xor (shift_bit a) (shift_bit b)
shift_bit-xor a b =
    shift_bit_lem (bit_xor a b)
    ∙ ap₂ bit_xor (half-xor a b) (carry-xor a b)
    ∙ xor_swap (a / 2) (b / 2) (carry a) (carry b)
    ∙ ap₂ bit_xor (sym (shift_bit_lem a)) (sym (shift_bit_lem b))

pub shift_bits-xor :
    (n a b : ℕ) → shift_bits n (bit_xor a b) ≡ bit_xor (shift_bits n a) (shift_bits n b)
unfolding shift_bits
shift_bits-xor zero a b = refl
shift_bits-xor (suc n) a b =
    ap (shift_bits n) (shift_bit-xor a b) ∙ shift_bits-xor n (shift_bit a) (shift_bit b)

shift_bit-double : (q : ℕ) → shift_bit (q * 2) ≡ q
unfolding shift_bit
shift_bit-double q = ground (arith, bit_and_mask 1 (q * 2))

-- Eight rounds over a word whose low byte is zero shift that byte out.
pub shift_bits-byte : (q : ℕ) → shift_bits 8 (q * 256) ≡ q
unfolding shift_bits
shift_bits-byte q =
    halve 128 7
    ∙ halve 64 6
    ∙ halve 32 5
    ∙ halve 16 4
    ∙ halve 8 3
    ∙ halve 4 2
    ∙ halve 2 1
    ∙ shift_bit-double q
  where
    halve : (m n : ℕ) → shift_bits (suc n) (q * (m * 2)) ≡ shift_bits n (q * m)
    halve m n = ap (shift_bits n) (
        ap shift_bit (let e : q * (m * 2) ≡ q * m * 2 = grind arith in e)
        ∙ shift_bit-double (q * m))

-- The register keeps its width of 32 bits.
pub shift_bit-lt : (x : ℕ) → x < 2 ^ 32 → shift_bit x < 2 ^ 32
unfolding carry
shift_bit-lt x h = rw shift_bit_lem (xor-lt 32 (x / 2) (carry x) (omega arith) (ground arith))

pub shift_bits-lt : (n x : ℕ) → x < 2 ^ 32 → shift_bits n x < 2 ^ 32
unfolding shift_bits
shift_bits-lt zero x h = h
shift_bits-lt (suc n) x h = shift_bits-lt n (shift_bit x) (shift_bit-lt x h)

-- The highest bit of the register tells what the round added.
top_bit : (x : ℕ) → x < 2 ^ 32 → bit_xor (x / 2) crc32c_polynomial / 2 ^ 31 ≡ 1
top_bit x h =
    shift-xor 31 (x / 2) crc32c_polynomial
    ∙ ap (λ t. bit_xor t 1) (let e : x / 2 / 2 ^ 31 ≡ 0 = omega arith in e)
    ∙ zero-xor 1

-- Two words of 32 bits with one outcome are one word.
shift_bit-injective : (x y : ℕ) → x < 2 ^ 32 → y < 2 ^ 32 → shift_bit x ≡ shift_bit y → x ≡ y
unfolding shift_bit
shift_bit-injective x y hx hy e = ground (
  arith,
  bit_and_mask 1 x,
  bit_and_mask 1 y,
  top_bit x hx,
  top_bit y hy,
  xor_comm (x / 2) crc32c_polynomial,
  xor_comm (y / 2) crc32c_polynomial,
  xor_cancel crc32c_polynomial (x / 2),
  xor_cancel crc32c_polynomial (y / 2),
)

pub shift_bits-injective :
    (n x y : ℕ) → x < 2 ^ 32 → y < 2 ^ 32 → shift_bits n x ≡ shift_bits n y → x ≡ y
unfolding shift_bits
shift_bits-injective zero x y hx hy e = e
shift_bits-injective (suc n) x y hx hy e =
    shift_bit-injective x y hx hy
      (shift_bits-injective n (shift_bit x) (shift_bit y) (shift_bit-lt x hx) (shift_bit-lt y hy) e)
