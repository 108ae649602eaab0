-- ===== src/Proto/Crc/Detect.antt =====
-- What the checksum detects.
use jellybean.Base.{ℕ, ◌^◌, ◌<◌, ◌≡◌, ◌≢◌, refl, sym, ap, ◌∙◌, arith, List, [], ◌∷◌, ◌++◌, bit_xor}
use jellybean.Base.Bits.{xor-lt, xor_cancel, xor_comm}
use jellybean.Base.Words.{Bytes, Bytes-append, not32}
use jellybean.Proto.Crc.{shift_bits, crc32c, Target}
use jellybean.Proto.Crc.Shift.{shift_bits-injective}
use jellybean.Proto.Crc.Table.{
  register, crc32c_register, register-lt, IsFaithful, crc32c-eq-register,
}

-- The same byte takes two registers to one value only if they were one.
step-injective :
    (x y b : ℕ)
    → x < 2 ^ 32
    → y < 2 ^ 32
    → b < 256
    → shift_bits 8 (bit_xor x b) ≡ shift_bits 8 (bit_xor y b)
    → x ≡ y
step-injective x y b hx hy hb e =
    sym (xor_cancel b x) ∙ ap (bit_xor b) (xor_comm b x ∙ same ∙ xor_comm y b) ∙ xor_cancel b y
  where
    same : bit_xor x b ≡ bit_xor y b
    same =
        shift_bits-injective 8 (bit_xor x b) (bit_xor y b) (xor-lt 32 x b hx (omega arith))
          (xor-lt 32 y b hy (omega arith)) e

register-injective :
    (x y : ℕ) (bytes : List ℕ)
    → x < 2 ^ 32
    → y < 2 ^ 32
    → Bytes bytes
    → register x bytes ≡ register y bytes
    → x ≡ y
unfolding register
register-injective x y [] hx hy ok e = e
register-injective x y (b ∷ bs) hx hy ok e =
    let wide = λ (z : ℕ) (hz : z < 2 ^ 32). register-lt z (b ∷ []) hz (ok.0, tt) in
    step-injective x y b hx hy ok.0 (
      register-injective (shift_bits 8 (bit_xor x b)) (shift_bits 8 (bit_xor y b)) bs (wide x hx)
        (wide y hy) ok.1 e)

register-append :
    (crc : ℕ) (xs ys : List ℕ) → register crc (xs ++ ys) ≡ register (register crc xs) ys
unfolding register
register-append crc [] ys = refl
register-append crc (x ∷ xs) ys = register-append (shift_bits 8 (bit_xor crc x)) xs ys

byte_of_register :
    (crc a b : ℕ)
    → crc < 2 ^ 32
    → a < 256
    → b < 256
    → register crc (a ∷ []) ≡ register crc (b ∷ [])
    → a ≡ b
unfolding register
byte_of_register crc a b h ha hb e =
    sym (xor_cancel crc a)
    ∙ ap (bit_xor crc) (
        shift_bits-injective 8 (bit_xor crc a) (bit_xor crc b) (xor-lt 32 crc a h (omega arith))
          (xor-lt 32 crc b h (omega arith)) e)
    ∙ xor_cancel crc b

-- A change of one byte changes the checksum, wherever the byte stands.
pub crc32c-detects_byte :
    (t : Target) (pre post : List ℕ) (a b : ℕ)
    → IsFaithful t
    → Bytes pre
    → Bytes post
    → a < 256
    → b < 256
    → a ≢ b
    → crc32c t (pre ++ (a ∷ post)) ≢ crc32c t (pre ++ (b ∷ post))
unfolding crc32c_register
crc32c-detects_byte t pre post a b good hpre hpost ha hb ne e = ne (
    byte_of_register mid a b hmid ha hb (
      register-injective _ _ post (byte_lt a ha) (byte_lt b hb) hpost (
        sym (register-append mid (a ∷ []) post)
        ∙ sym (register-append start pre (a ∷ post))
        ∙ whole
        ∙ register-append start pre (b ∷ post)
        ∙ register-append mid (b ∷ []) post)))
  where
    start : ℕ
    start = 0xFFFFFFFF

    mid : ℕ
    mid = register start pre

    hmid : mid < 2 ^ 32
    hmid = register-lt start pre (omega arith) hpre

    byte_lt : (c : ℕ) → c < 256 → register mid (c ∷ []) < 2 ^ 32
    byte_lt c hc = register-lt mid (c ∷ []) hmid (hc, tt)

    whole_lt : (c : ℕ) → c < 256 → register start (pre ++ (c ∷ post)) < 2 ^ 32
    whole_lt c hc =
        register-lt start (pre ++ (c ∷ post)) (omega arith)
          (Bytes-append pre (c ∷ post) hpre (hc, hpost))

    unwrap :
        (c : ℕ)
        → c < 256
        → crc32c t (pre ++ (c ∷ post)) ≡ not32 (register start (pre ++ (c ∷ post)))
    unwrap c hc =
        crc32c-eq-register t (pre ++ (c ∷ post)) good (Bytes-append pre (c ∷ post) hpre (hc, hpost))

    whole : register start (pre ++ (a ∷ post)) ≡ register start (pre ++ (b ∷ post))
    whole = omega (arith, e, unwrap a ha, unwrap b hb, whole_lt a ha, whole_lt b hb)
