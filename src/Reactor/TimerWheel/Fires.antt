-- ===== src/Reactor/TimerWheel/Fires.antt =====
-- One timer from `add_timer` to its callback.
use jellybean.Base.{
  leb, leb→le, ℕ, zero, suc, ◌+◌, ◌-◌, ◌%◌, ◌/◌, ◌^◌, ◌≤◌, ◌<◌, ◌≡◌, refl, sym, ap, ◌∙◌, arith, max,
}
use jellybean.Base.{
  List, [], ◌∷◌, ◌++◌, ltb, ◌==◌, if◌then◌else◌, ◌⊎◌, inl, inr, Bool-cases, ℕ_discrete, ==_iff,
  bit_and, ◌≢◌, false,
}
use mathlib.Core.Path.{subst}
use jellybean.Base.Words.{add64}
use jellybean.Reactor.TimerWheel.{
  TimerEntry, TimerWheel, pending, add_timer, advance, tick_ns, put_slot,
}
use jellybean.Reactor.TimerWheel.Due.{Waiting, IsValid, slot_lem, due_at}
use jellybean.Reactor.TimerWheel.Advance.{due_between, Advanced, advance-Advanced}

abbrev pub In : TimerEntry → List TimerEntry → Type 0
In e [] = ⊥
In e (x ∷ xs) = (x ≡ e) ⊎ In e xs

In-append_left : (e : TimerEntry) (xs ys : List TimerEntry) → In e xs → In e (xs ++ ys)
In-append_left e [] ys h = absurd h
In-append_left e (x ∷ xs) ys (inl h) = inl h
In-append_left e (x ∷ xs) ys (inr h) = inr (In-append_left e xs ys h)

In-append_right : (e : TimerEntry) (xs ys : List TimerEntry) → In e ys → In e (xs ++ ys)
In-append_right e [] ys h = h
In-append_right e (x ∷ xs) ys h = inr (In-append_right e xs ys h)

In-due_at : (e : TimerEntry) (es : List TimerEntry) → In e es → In e (due_at e.expires_tick es)
unfolding due_at
In-due_at e [] h = h
In-due_at e (x ∷ es) (inl h) = elim (Bool-cases (x.expires_tick == e.expires_tick)) [
  | inl t ↦ rw t (inl h)
  | inr f ↦ absurd (ground (arith, ap (λ y. y.expires_tick) h))
]
In-due_at e (x ∷ es) (inr h) = elim (Bool-cases (x.expires_tick == e.expires_tick)) [
  | inl t ↦ rw t (inr (In-due_at e es h))
  | inr f ↦ rw f (In-due_at e es h)
]

In-pending :
    (e : TimerEntry) (t : ℕ) (es : List TimerEntry)
    → t < e.expires_tick
    → In e es
    → In e (pending t es)
unfolding pending
In-pending e t [] lt h = h
In-pending e t (x ∷ es) lt (inl h) = elim (Bool-cases (ltb t x.expires_tick)) [
  | inl later ↦ rw later (inl h)
  | inr gone ↦ absurd (ground (arith, ap (λ y. y.expires_tick) h))
]
In-pending e t (x ∷ es) lt (inr h) = elim (Bool-cases (ltb t x.expires_tick)) [
  | inl later ↦ rw later (inr (In-pending e t es lt h))
  | inr gone ↦ rw gone (In-pending e t es lt h)
]

In-due_between :
    (e : TimerEntry) (slots : ℕ → List TimerEntry) (n now : ℕ)
    → now < e.expires_tick
    → e.expires_tick ≤ now + n
    → In e (slots (e.expires_tick % 512))
    → In e (due_between slots now n)
unfolding due_between
In-due_between e slots zero now lo hi h = absurd (omega arith)
In-due_between e slots (suc n) now lo hi h = elim (ℕ_discrete (now + 1) e.expires_tick) [
  | yes here ↦
      In-append_left e (due_at (now + 1) (slots ((now + 1) % 512))) (due_between slots (now + 1) n)
        (subst (λ t. In e (due_at t (slots (t % 512)))) (sym here) (In-due_at e _ h))
  | no later ↦
      In-append_right e (due_at (now + 1) (slots ((now + 1) % 512))) (due_between slots (now + 1) n)
        (In-due_between e slots n (now + 1) (omega arith) (omega arith) h)
]

-- What fires between two ticks expires after the first and not after the second.
abbrev pub Within : ℕ → ℕ → List TimerEntry → Type 0
Within lo hi [] = Unit
Within lo hi (e ∷ es) = ((lo < e.expires_tick) × (e.expires_tick ≤ hi)) × Within lo hi es

Within-due_at :
    (lo hi t : ℕ) (es rest : List TimerEntry)
    → lo < t
    → t ≤ hi
    → Within lo hi rest
    → Within lo hi (due_at t es ++ rest)
unfolding due_at
Within-due_at lo hi t [] rest h k r = r
Within-due_at lo hi t (e ∷ es) rest h k r = elim (Bool-cases (e.expires_tick == t)) [
  | inl same ↦ rw same (ground arith, Within-due_at lo hi t es rest h k r)
  | inr other ↦ rw other (Within-due_at lo hi t es rest h k r)
]

Within-due_between :
    (lo hi : ℕ) (slots : ℕ → List TimerEntry) (n now : ℕ)
    → lo ≤ now
    → now + n ≤ hi
    → Within lo hi (due_between slots now n)
unfolding due_between
Within-due_between lo hi slots zero now h k = tt
Within-due_between lo hi slots (suc n) now h k =
    Within-due_at lo hi (now + 1) (slots ((now + 1) % 512)) (due_between slots (now + 1) n)
      (omega arith) (omega arith)
      (Within-due_between lo hi slots n (now + 1) (omega arith) (omega arith))

-- The tick at which a timer added now expires: the delay in whole ticks, and one tick at least.
abbrev pub expiry : TimerWheel → ℕ → ℕ
expiry w delay_ns = w.current_tick + max 1 (delay_ns / tick_ns)

Waiting-append :
    (slot now : ℕ) (xs ys : List TimerEntry)
    → Waiting slot now xs
    → Waiting slot now ys
    → Waiting slot now (xs ++ ys)
Waiting-append slot now [] ys hx hy = hy
Waiting-append slot now (x ∷ xs) ys hx hy = (hx.0, Waiting-append slot now xs ys hx.1 hy)

abbrev pub entry : TimerWheel → ℕ → ℕ → TimerEntry
entry w delay_ns cb = record { expires_tick = expiry w delay_ns; callback = cb }

current_tick-add_timer :
    (w : TimerWheel) (delay_ns cb : ℕ) → (add_timer w delay_ns cb).current_tick ≡ w.current_tick
unfolding add_timer
current_tick-add_timer w delay_ns cb = refl

==_ne : (a b : ℕ) → a ≢ b → (a == b) ≡ false
==_ne a b h = ground arith

add_timer-slots :
    (w : TimerWheel) (delay_ns cb slot : ℕ)
    → expiry w delay_ns < 2 ^ 64
    → (add_timer w delay_ns cb).slots slot ≡ (
        if expiry w delay_ns % 512 == slot
        then w.slots (expiry w delay_ns % 512) ++ (entry w delay_ns cb ∷ [])
        else w.slots slot)
unfolding add_timer
add_timer-slots w delay_ns cb slot room =
    ap
      (λ t.
        put_slot w.slots (bit_and t 511)
          (w.slots (bit_and t 511) ++ (record { expires_tick = t; callback = cb } ∷ [])) slot)
      tick
    ∙ ap (λ s. put_slot w.slots s (w.slots s ++ (entry w delay_ns cb ∷ [])) slot)
        (slot_lem (expiry w delay_ns))
  where
    tick :
        add64 w.current_tick (if delay_ns / tick_ns == 0 then 1 else delay_ns / tick_ns)
        ≡ expiry w delay_ns
    tick = ground arith

-- A new timer goes where the wheel wants it.
add_timer-IsValid :
    (w : TimerWheel) (delay_ns cb : ℕ)
    → IsValid w
    → expiry w delay_ns < 2 ^ 64
    → IsValid (add_timer w delay_ns cb)
unfolding add_timer
add_timer-IsValid w delay_ns cb v room slot =
    subst (Waiting slot w.current_tick) (sym (add_timer-slots w delay_ns cb slot room))
      (elim (ℕ_discrete (expiry w delay_ns % 512) slot) [
        | yes here ↦ rw ((==_iff (expiry w delay_ns % 512) slot).1 here) (
            Waiting-append slot w.current_tick (w.slots (expiry w delay_ns % 512))
              (entry w delay_ns cb ∷ [])
              (subst (λ s. Waiting s w.current_tick (w.slots (expiry w delay_ns % 512))) here
                (v (expiry w delay_ns % 512)))
              ((here, omega arith), tt))
        | no other ↦ rw (==_ne (expiry w delay_ns % 512) slot other) (v slot)
      ])

added-In :
    (w : TimerWheel) (delay_ns cb : ℕ)
    → expiry w delay_ns < 2 ^ 64
    → In (entry w delay_ns cb) ((add_timer w delay_ns cb).slots (expiry w delay_ns % 512))
added-In w delay_ns cb room =
    subst (In (entry w delay_ns cb))
      (sym (add_timer-slots w delay_ns cb (expiry w delay_ns % 512) room))
      (rw ((==_iff (expiry w delay_ns % 512) (expiry w delay_ns % 512)).1 refl) (
        In-append_right (entry w delay_ns cb) (w.slots (expiry w delay_ns % 512))
          (entry w delay_ns cb ∷ []) (inl refl)))

-- A timer added to a valid wheel, and then an `advance` to a time that is not before the wheel's:
-- the timer fires if its tick is reached, and is still in its bucket if not; and all that fires
-- expires after the wheel's old tick and not after its new one.
pub advance-add_timer :
    (w : TimerWheel) (delay_ns cb now_ns : ℕ)
    → IsValid w
    → expiry w delay_ns < 2 ^ 64
    → now_ns < 2 ^ 64
    → w.current_tick ≤ now_ns / tick_ns
    → let (w', fired) = advance (add_timer w delay_ns cb) now_ns in
      In (entry w delay_ns cb) (
        if leb (expiry w delay_ns) (now_ns / tick_ns)
        then fired
        else w'.slots (expiry w delay_ns % 512))
      × Within w.current_tick (now_ns / tick_ns) fired
advance-add_timer w delay_ns cb now_ns v room small le = (
  elim (Bool-cases (leb (expiry w delay_ns) (now_ns / tick_ns))) [
    | inl reached ↦ rw reached (
        subst (In (entry w delay_ns cb)) (sym done.fired) (
          In-due_between (entry w delay_ns cb) (add_timer w delay_ns cb).slots
            (now_ns / tick_ns - (add_timer w delay_ns cb).current_tick)
            (add_timer w delay_ns cb).current_tick (omega (arith, same))
            (omega (arith, same, leb→le _ _ reached)) (added-In w delay_ns cb room)))
    | inr later ↦ rw later (
        subst (In (entry w delay_ns cb)) (sym (done.left (expiry w delay_ns % 512))) (
          In-pending (entry w delay_ns cb) _ _ (ground (arith, same))
            (added-In w delay_ns cb room)))
  ],
  subst (Within w.current_tick (now_ns / tick_ns)) (sym done.fired) (
      Within-due_between w.current_tick (now_ns / tick_ns) (add_timer w delay_ns cb).slots
        (now_ns / tick_ns - (add_timer w delay_ns cb).current_tick)
        (add_timer w delay_ns cb).current_tick (omega (arith, same)) (omega (arith, same))),
)
  where
    same : (add_timer w delay_ns cb).current_tick ≡ w.current_tick
    same = current_tick-add_timer w delay_ns cb

    done :
        Advanced
          (add_timer w delay_ns cb)
          (now_ns / tick_ns - (add_timer w delay_ns cb).current_tick)
          (advance (add_timer w delay_ns cb) now_ns)
    done =
        (advance-Advanced (add_timer w delay_ns cb) now_ns (add_timer-IsValid w delay_ns cb v room)
          small (omega (arith, same))).0
