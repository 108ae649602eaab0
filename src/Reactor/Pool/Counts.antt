-- ===== src/Reactor/Pool/Counts.antt =====
-- How many workers of the pool are in which state.
use jellybean.Base.{ℕ, zero, suc, ◌+◌, ◌≡◌, refl, arith, List, [], ◌∷◌, ◌++◌, length}
use jellybean.Reactor.Pool.{
  Worker, checking, asleep, busy, gone, new_workers, wake, is_asleep, count,
}

-- A worker that will look at the queue again without a notification.
abbrev pub is_active : Worker → ℕ
is_active checking = 1
is_active asleep = 0
is_active (busy task) = 1
is_active gone = 0

abbrev pub is_gone : Worker → ℕ
is_gone checking = 0
is_gone asleep = 0
is_gone (busy task) = 0
is_gone gone = 1

pub count-all :
    (ws : List Worker) → count is_active ws + count is_asleep ws + count is_gone ws ≡ length ws
count-all [] = refl
count-all (checking ∷ ws) = omega (arith, count-all ws)
count-all (asleep ∷ ws) = omega (arith, count-all ws)
count-all (busy task ∷ ws) = omega (arith, count-all ws)
count-all (gone ∷ ws) = omega (arith, count-all ws)

-- One worker and the others.
pub count-middle :
    (f : Worker → ℕ) (before after : List Worker) (w : Worker)
    → count f (before ++ (w ∷ after)) ≡ f w + count f (before ++ after)
count-middle f [] after w = refl
count-middle f (v ∷ before) after w = omega (arith, count-middle f before after w)

pub length-middle :
    (before after : List Worker) (w : Worker)
    → length (before ++ (w ∷ after)) ≡ 1 + length (before ++ after)
length-middle [] after w = omega arith
length-middle (v ∷ before) after w = omega (arith, length-middle before after w)

pub wake-asleep : (ws : List Worker) → count is_asleep (wake ws) ≡ 0
wake-asleep [] = refl
wake-asleep (checking ∷ ws) = omega (arith, wake-asleep ws)
wake-asleep (asleep ∷ ws) = omega (arith, wake-asleep ws)
wake-asleep (busy task ∷ ws) = omega (arith, wake-asleep ws)
wake-asleep (gone ∷ ws) = omega (arith, wake-asleep ws)

pub wake-gone : (ws : List Worker) → count is_gone (wake ws) ≡ count is_gone ws
wake-gone [] = refl
wake-gone (checking ∷ ws) = omega (arith, wake-gone ws)
wake-gone (asleep ∷ ws) = omega (arith, wake-gone ws)
wake-gone (busy task ∷ ws) = omega (arith, wake-gone ws)
wake-gone (gone ∷ ws) = omega (arith, wake-gone ws)

pub wake-length : (ws : List Worker) → length (wake ws) ≡ length ws
wake-length [] = refl
wake-length (checking ∷ ws) = omega (arith, wake-length ws)
wake-length (asleep ∷ ws) = omega (arith, wake-length ws)
wake-length (busy task ∷ ws) = omega (arith, wake-length ws)
wake-length (gone ∷ ws) = omega (arith, wake-length ws)

pub new_workers-length : (n : ℕ) → length (new_workers n) ≡ n
new_workers-length zero = refl
new_workers-length (suc n) = omega (arith, new_workers-length n)

pub new_workers-gone : (n : ℕ) → count is_gone (new_workers n) ≡ 0
new_workers-gone zero = refl
new_workers-gone (suc n) = omega (arith, new_workers-gone n)

pub new_workers-asleep : (n : ℕ) → count is_asleep (new_workers n) ≡ 0
new_workers-asleep zero = refl
new_workers-asleep (suc n) = omega (arith, new_workers-asleep n)
