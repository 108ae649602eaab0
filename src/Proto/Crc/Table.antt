-- ===== src/Proto/Crc/Table.antt =====
-- The loop over the table against the shift register that CRC-32C is defined by, and the loop over
-- the processor's instructions against the loop over the table.
use jellybean.Base.{◌∙◌, ap₂, ap, sym, refl, ◌≡◌, ◌<◌, ◌^◌, ◌%◌, ◌/◌, ◌*◌, ◌+◌, suc, zero, ℕ}
use jellybean.Base.{arith, List, [], ◌∷◌, bit_and, bit_xor, get_or}
use jellybean.Base.Bits.{bit_and_mask, bit_xor_step, two-pow-suc, xor-lt, xor-zero, shift-xor}
use native.Mathlib.Nat.{div-eq_of_lt, mod-eq_of_lt}
use jellybean.Base.Words.{u8, u32, not32, of_le_bytes, Bytes}
use jellybean.Proto.Crc.{shift_bits, make_crc32c_table, table_from, software_loop, crc32c_software}
use jellybean.Proto.Crc.{Target, hardware_loop, crc32c}
use jellybean.Proto.Crc.Shift.{shift_bits-xor, shift_bits-byte, shift_bits-lt}

get_or-table_from : (i n j : ℕ) → j < n → get_or (table_from i n) j 0 ≡ shift_bits 8 (i + j)
unfolding table_from
get_or-table_from i zero j h = absurd (omega arith)
get_or-table_from i (suc n) zero h = ap (shift_bits 8) (omega arith)
get_or-table_from i (suc n) (suc j) h =
    get_or-table_from (i + 1) n j (omega arith) ∙ ap (shift_bits 8) (omega arith)

table_lookup : (j : ℕ) → j < 256 → get_or make_crc32c_table j 0 ≡ shift_bits 8 j
unfolding make_crc32c_table
table_lookup j h = get_or-table_from 0 256 j h ∙ ap (shift_bits 8) (omega arith)

-- A word is the exclusive or of its high part and its low bits.
xor_parts : (k q r : ℕ) → r < 2 ^ k → bit_xor (q * 2 ^ k) r ≡ q * 2 ^ k + r
xor_parts zero q r h = let e : r ≡ 0 = omega arith in rw (e, xor-zero) (omega arith)
xor_parts (suc k) q r h = omega (
  arith,
  double,
  bit_xor_step (q * 2 ^ suc k) r,
  ap (λ t. bit_xor t (r / 2)) half,
  xor_parts k q (r / 2) (omega (arith, two-pow-suc k)),
)
  where
    double : q * 2 ^ suc k ≡ 2 * (q * 2 ^ k)
    double = ap (λ (t : ℕ). q * t) (two-pow-suc k) ∙ grind arith

    half : q * 2 ^ suc k / 2 ≡ q * 2 ^ k
    half = omega (arith, double)

shift_byte : (x : ℕ) → shift_bits 8 x ≡ bit_xor (x / 256) (shift_bits 8 (x % 256))
shift_byte x =
    ap (shift_bits 8) parts
    ∙ shift_bits-xor 8 (x / 256 * 256) (x % 256)
    ∙ ap (λ t. bit_xor t (shift_bits 8 (x % 256))) (shift_bits-byte (x / 256))
  where
    parts : x ≡ bit_xor (x / 256 * 256) (x % 256)
    parts = omega (arith, xor_parts 8 (x / 256) (x % 256) (omega arith))

-- A byte leaves the high bits of the register alone.
high_part : (crc b : ℕ) → b < 256 → bit_xor crc b / 256 ≡ crc / 256
high_part crc b h =
    shift-xor 8 crc b ∙ ap (bit_xor (crc / 256)) (div-eq_of_lt h) ∙ xor-zero (crc / 256)

-- CRC-32C by its definition: a byte enters the register, and eight rounds follow.
unfoldable pub register : ℕ → List ℕ → ℕ
register crc [] = crc
register crc (b ∷ bs) = register (shift_bits 8 (bit_xor crc b)) bs

unfoldable pub crc32c_register : List ℕ → ℕ
crc32c_register bytes = not32 (register 0xFFFFFFFF bytes)

table_step :
    (crc b : ℕ)
    → b < 256
    → bit_xor (crc / 2 ^ 8) (get_or make_crc32c_table (u8 (bit_and (bit_xor crc b) 0xFF)) 0)
      ≡ shift_bits 8 (bit_xor crc b)
table_step crc b h =
    ap₂ bit_xor (sym (high_part crc b h)) (
      ap (λ j. get_or make_crc32c_table j 0) index
      ∙ table_lookup (bit_xor crc b % 256) (omega arith))
    ∙ sym (shift_byte (bit_xor crc b))
  where
    index : u8 (bit_and (bit_xor crc b) 0xFF) ≡ bit_xor crc b % 256
    index = omega (arith, bit_and_mask 8 (bit_xor crc b))

software_loop-eq-register :
    (crc : ℕ) (bytes : List ℕ) → Bytes bytes → software_loop crc bytes ≡ register crc bytes
unfolding software_loop register
software_loop-eq-register crc [] h = refl
software_loop-eq-register crc (b ∷ bs) h =
    ap (λ c. software_loop c bs) (table_step crc b h.0)
    ∙ software_loop-eq-register (shift_bits 8 (bit_xor crc b)) bs h.1

-- The loop over the table computes CRC-32C, on every sequence of bytes.
pub crc32c_software-eq-register :
    (bytes : List ℕ) → Bytes bytes → crc32c_software bytes ≡ crc32c_register bytes
unfolding crc32c_software crc32c_register
crc32c_software-eq-register bytes h = ap not32 (software_loop-eq-register 0xFFFFFFFF bytes h)

-- What the processor's manual says of the instructions: a byte enters the register and eight
-- rounds follow, and a word of eight bytes enters lowest byte first.
pub record IsCrc32Instruction (wide narrow : ℕ → ℕ → ℕ) : Type 0 where
  pub byte : (crc b : ℕ) → crc < 2 ^ 32 → b < 256 → narrow crc b ≡ register crc (b ∷ [])
  pub word :
      (crc a b c d e f g h : ℕ)
      → crc < 2 ^ 32
      → Bytes (a ∷ b ∷ c ∷ d ∷ e ∷ f ∷ g ∷ h ∷ [])
      → wide crc (of_le_bytes (a ∷ b ∷ c ∷ d ∷ e ∷ f ∷ g ∷ h ∷ []))
        ≡ register crc (a ∷ b ∷ c ∷ d ∷ e ∷ f ∷ g ∷ h ∷ [])

pub register-lt :
    (crc : ℕ) (bytes : List ℕ) → crc < 2 ^ 32 → Bytes bytes → register crc bytes < 2 ^ 32
unfolding register
register-lt crc [] h k = h
register-lt crc (b ∷ bs) h k =
    register-lt (shift_bits 8 (bit_xor crc b)) bs
      (shift_bits-lt 8 (bit_xor crc b) (xor-lt 32 crc b h (omega (arith, k.0)))) k.1

module _ {wide narrow : ℕ → ℕ → ℕ} (intel : IsCrc32Instruction wide narrow) where
  narrow_step :
      (crc p : ℕ) (rest : List ℕ)
      → crc < 2 ^ 32
      → Bytes (p ∷ rest)
      → (u32 (narrow crc p) ≡ register crc (p ∷ [])) × (register crc (p ∷ []) < 2 ^ 32)
  narrow_step crc p rest h k =
      let bound = register-lt crc (p ∷ []) h (k.0, tt) in
      (omega (arith, intel.byte crc p h k.0, bound), bound)

  hardware_loop-eq-register :
      (crc : ℕ) (bytes : List ℕ)
      → crc < 2 ^ 32
      → Bytes bytes
      → hardware_loop wide narrow crc bytes ≡ register crc bytes
  unfolding hardware_loop register
  hardware_loop-eq-register crc (a ∷ b ∷ c ∷ d ∷ e ∷ f ∷ g ∷ h ∷ rest) lt ok =
      let front : Bytes (a ∷ b ∷ c ∷ d ∷ e ∷ f ∷ g ∷ h ∷ []) = omega arith in
      let next = register crc (a ∷ b ∷ c ∷ d ∷ e ∷ f ∷ g ∷ h ∷ []) in
      let bound = register-lt crc (a ∷ b ∷ c ∷ d ∷ e ∷ f ∷ g ∷ h ∷ []) lt front in
      ap (λ c. hardware_loop wide narrow c rest)
        (ap u32 (intel.word crc a b c d e f g h lt front) ∙ mod-eq_of_lt bound)
      ∙ hardware_loop-eq-register next rest bound ok.1.1.1.1.1.1.1.1
  hardware_loop-eq-register crc (p ∷ rest) lt ok =
      let (step, bound) = narrow_step crc p rest lt ok in
      ap (λ c. hardware_loop wide narrow c rest) step
      ∙ hardware_loop-eq-register (register crc (p ∷ [])) rest bound ok.1
  hardware_loop-eq-register crc [] lt ok = refl

  -- With instructions that do what the manual says, a build that uses them and a portable build
  -- compute the same checksum of every sequence of bytes.
  pub crc32c-portable-eq-sse42 :
      (bytes : List ℕ)
      → Bytes bytes
      → crc32c Target.portable bytes ≡ crc32c (Target.sse42 wide narrow) bytes
  unfolding crc32c crc32c_register
  crc32c-portable-eq-sse42 bytes ok =
      crc32c_software-eq-register bytes ok
      ∙ ap not32 (sym (hardware_loop-eq-register 0xFFFFFFFF bytes (omega arith) ok))

-- A build whose instructions, if it uses them, do what the manual says.
abbrev pub IsFaithful : Target → Type 0
IsFaithful Target.portable = Unit
IsFaithful (Target.sse42 wide narrow) = IsCrc32Instruction wide narrow

pub crc32c-eq-register :
    (t : Target) (bytes : List ℕ)
    → IsFaithful t
    → Bytes bytes
    → crc32c t bytes ≡ crc32c_register bytes
unfolding crc32c
crc32c-eq-register Target.portable bytes good ok = crc32c_software-eq-register bytes ok
crc32c-eq-register (Target.sse42 wide narrow) bytes good ok =
    sym (crc32c-portable-eq-sse42 good bytes ok) ∙ crc32c_software-eq-register bytes ok

-- A checksum is a word of 32 bits.
pub crc32c-lt : (t : Target) (bytes : List ℕ) → crc32c t bytes < 2 ^ 32
unfolding crc32c crc32c_software
crc32c-lt Target.portable bytes = omega arith
crc32c-lt (Target.sse42 wide narrow) bytes = omega arith
