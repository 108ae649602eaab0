-- ===== src/Checks/Reactor.antt =====
-- The timer wheel of src/reactor/timer_wheel.cpp over a few milliseconds.
use jellybean.Base.{◌-◌, ◌/◌, ◌%◌, ◌≡◌, refl, arith, [], ◌∷◌, leb, if◌then◌else◌}
use jellybean.Reactor.TimerWheel.{TimerWheel, make, add_timer, advance, tick_ns}
use jellybean.Reactor.TimerWheel.Due.{IsValid}
use jellybean.Reactor.TimerWheel.Advance.{Advanced, advance-Advanced}
use jellybean.Reactor.TimerWheel.Fires.{In, Within, expiry, entry, advance-add_timer}

make-IsValid : IsValid make
make-IsValid slot = tt

-- One timer after a millisecond and one after three, at two milliseconds.
abbrev two_timers : TimerWheel
two_timers = add_timer (add_timer make 0 7) 3000000 8

first_fires : (advance two_timers 2500000).1 ≡ record { expires_tick = 1; callback = 7 } ∷ []
unfolding advance add_timer
first_fires = refl

advance-Advanced_example :
    Advanced make (2500000 / tick_ns - 0) (advance make 2500000) × IsValid (advance make 2500000).0
advance-Advanced_example = advance-Advanced make 2500000 make-IsValid (omega arith) (omega arith)

advance-add_timer_example :
    let (w', fired) = advance (add_timer make 3000000 8) 2500000 in
    In (entry make 3000000 8) (
      if leb (expiry make 3000000) (2500000 / tick_ns)
      then fired
      else w'.slots (expiry make 3000000 % 512))
    × Within 0 (2500000 / tick_ns) fired
advance-add_timer_example =
    advance-add_timer make 3000000 8 2500000 make-IsValid (omega arith) (omega arith) (omega arith)
