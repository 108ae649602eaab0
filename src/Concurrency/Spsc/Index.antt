-- ===== src/Concurrency/Spsc/Index.antt =====
-- The slots of indices that wrap: the mask takes the remainder by the capacity, before and after
-- the wrap, and fewer than a capacity of indices in a row have different slots.
use jellybean.Base.{ℕ, zero, suc, ◌+◌, ◌-◌, ◌*◌, ◌/◌, ◌%◌, ◌^◌, ◌≤◌, ◌<◌, ◌≡◌, ◌≢◌, sym, ap, ◌∙◌}
use jellybean.Base.{arith, bit_and, dec_lt}
use jellybean.Base.Bits.{bit_and_mask, two-pow-suc, IsPowerOfTwo, exponent}
use native.Mathlib.Nat.{mul-add-mod_self_right, div-add-mod', mod-lt, mod-eq_of_lt, mod-eq-sub-mod}
use native.Mathlib.Nat.{mod-add-mod, mod-mod}

two-pow-add : (k j : ℕ) → 2 ^ (j + k) ≡ 2 ^ j * 2 ^ k
two-pow-add k zero = omega (arith, ap (λ (t : ℕ). 2 ^ t) (let e : 0 + k ≡ k = omega arith in e))
two-pow-add k (suc j) =
    ap (λ (t : ℕ). 2 ^ t) (let e : suc j + k ≡ suc (j + k) = omega arith in e)
    ∙ two-pow-suc (j + k)
    ∙ ap (λ (t : ℕ). 2 * t) (two-pow-add k j)
    ∙ (let e : 2 * (2 ^ j * 2 ^ k) ≡ (2 * 2 ^ j) * 2 ^ k = grind arith in e)
    ∙ ap (λ (t : ℕ). t * 2 ^ k) (sym (two-pow-suc j))

mod-mod_mul : (x a b : ℕ) → x % (b * a) % a ≡ x % a
mod-mod_mul x a b =
    sym (mul-add-mod_self_right (x / (b * a) * b) a (x % (b * a)))
    ∙ ap (λ (t : ℕ). t % a)
        (let e : x / (b * a) * b * a + x % (b * a) ≡ x = grind (arith, div-add-mod' x (b * a)) in e)

wrap_mod : (k x : ℕ) → k ≤ 63 → x % 2 ^ 64 % 2 ^ k ≡ x % 2 ^ k
wrap_mod k x le =
    ap (λ (t : ℕ). x % t % 2 ^ k)
      (ap (λ (t : ℕ). 2 ^ t) (let e : 64 ≡ (64 - k) + k = omega arith in e)
        ∙ two-pow-add k (64 - k))
    ∙ mod-mod_mul x (2 ^ k) (2 ^ (64 - k))

-- The mask on a wrapped index.
pub slot_of-wrap :
    (capacity x : ℕ) → IsPowerOfTwo capacity → bit_and (x % 2 ^ 64) (capacity - 1) ≡ x % capacity
slot_of-wrap capacity x ok =
    let (k, e, le) = exponent capacity ok in
    ap (λ (t : ℕ). bit_and (x % 2 ^ 64) (t - 1)) e
    ∙ bit_and_mask k (x % 2 ^ 64)
    ∙ wrap_mod k x le
    ∙ ap (λ (t : ℕ). x % t) (sym e)

-- Fewer steps than the capacity do not come back to a slot.
pub mod-ne : (c x d : ℕ) → 0 < d → d < c → x % c ≢ (x + d) % c
mod-ne c x d pos lt = elim (dec_lt (x % c + d) c) [
  | yes below ↦ omega (arith, mod-add-mod x c d, mod-eq_of_lt below)
  | no above ↦ omega (
    arith,
    mod-add-mod x c d,
    mod-lt x {m = c} (omega arith),
    mod-eq-sub-mod {n = x % c + d} {m = c} (omega arith),
    mod-eq_of_lt {n = x % c + d - c} {m = c} (omega (arith, mod-lt x {m = c} (omega arith))),
  )
]

-- The remainder by the capacity does not see the wrap.
pub wrap-mod : (capacity x : ℕ) → IsPowerOfTwo capacity → x % 2 ^ 64 % capacity ≡ x % capacity
wrap-mod capacity x ok =
    sym (slot_of-wrap capacity (x % 2 ^ 64) ok)
    ∙ ap (λ (t : ℕ). bit_and t (capacity - 1)) (mod-mod x (2 ^ 64))
    ∙ slot_of-wrap capacity x ok
