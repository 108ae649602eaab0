-- ===== src/Base/Numerals.antt =====
-- `std::stoi` and its kin, and `std::to_string`, in base ten.
use Prim.Native.Nat.{ℕ, zero, suc, ◌+◌, ◌-◌, ◌*◌, ◌/◌, ◌%◌, ◌^◌}
use mathlib.Core.Bool.{Bool, false, not, ◌&&◌, ◌||◌}
use mathlib.Core.List.{[], ◌∷◌, ◌++◌}
use jellybean.Base.Tests.{ltb, leb, ◌==◌, if◌then◌else◌}
use jellybean.Base.Text.{Text, erase_front}
use jellybean.Base.Outcome.{Outcome, ok, throws, invalid_argument, out_of_range}
use jellybean.Base.Int.{ℤ, pos, negsuc, neg_ℕ}

abbrev is_digit : ℕ → Bool
is_digit c = leb b'0' c && leb c b'9'

-- The number that the leading digits make, behind `n`.
unfoldable leading_number : ℕ → Text → ℕ
leading_number n [] = n
leading_number n (c ∷ cs) =
    let rest = leading_number (10 * n + (c - b'0')) cs in if is_digit c then rest else n

abbrev has_digit : Text → Bool
has_digit [] = false
has_digit (c ∷ cs) = is_digit c

abbrev without_sign : Text → Text
without_sign [] = []
without_sign (c ∷ cs) = if c == b'-' || c == b'+' then cs else c ∷ cs

abbrev is_negative : Text → Bool
is_negative [] = false
is_negative (c ∷ cs) = c == b'-'

abbrev spaces : Text
spaces = b' ' ∷ 9 ∷ 10 ∷ 11 ∷ 12 ∷ 13 ∷ []

abbrev magnitude : Text → ℕ
unfolding leading_number
magnitude s = leading_number 0 (without_sign s)

-- The common part: no digits, else the value of the rest by its sign.
abbrev read_number {ℓ} : {A : Type ℓ} → (Bool → ℕ → Outcome A) → Text → Outcome A
unfolding erase_front leading_number
read_number finish s =
    let t = erase_front spaces s in
    if has_digit (without_sign t)
    then finish (is_negative t) (magnitude t)
    else throws invalid_argument

abbrev to_signed : ℕ → Bool → ℕ → Outcome ℤ
to_signed limit negative n =
    if negative
    then (if leb n limit then ok (neg_ℕ n) else throws out_of_range)
    else if ltb n limit
    then ok (pos n)
    else throws out_of_range

abbrev to_unsigned : Bool → ℕ → Outcome ℕ
to_unsigned negative n =
    if not (ltb n (2 ^ 64))
    then throws out_of_range
    else ok (if negative then (2 ^ 64 - n) % 2 ^ 64 else n)

unfoldable pub stoi : Text → Outcome ℤ
unfolding erase_front leading_number
stoi s = read_number (to_signed (2 ^ 31)) s

unfoldable pub stoll : Text → Outcome ℤ
unfolding erase_front leading_number
stoll s = read_number (to_signed (2 ^ 63)) s

unfoldable pub stoul : Text → Outcome ℕ
unfolding erase_front leading_number
stoul s = read_number to_unsigned s

-- A number has no more digits than itself plus one.
unfoldable pub digits_of : ℕ → ℕ → Text
digits_of zero n = []
digits_of (suc fuel) n =
    let rest = digits_of fuel (n / 10) in
    if ltb n 10 then (b'0' + n) ∷ [] else rest ++ ((b'0' + n % 10) ∷ [])

unfoldable pub to_text : ℤ → Text
unfolding digits_of
to_text (pos n) = digits_of (suc n) n
to_text (negsuc n) = b'-' ∷ digits_of (suc (suc n)) (suc n)
