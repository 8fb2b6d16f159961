-- ===== src/Timer/Tests.antt =====
-- Tests of the timers of src/TimerObject.cpp and src/BasicIoService.cpp.
use objxp.Common.{
  ℕ, ◌-◌, ◌*◌, ◌+◌, ◌<◌, ◌≡◌, ◌≢◌, ◌↔◌, refl, Bool, true, false, [], ◌∷◌, ◌++◌, arith, All, In,
}
use objxp.Timer.{
  Time, add_msec, time_lt, time_eq, time_gt, time_sub, Timers, is_expired, register_timer,
  unregister_timer, expire,
}
use objxp.Timer.Order.{Timely, live_of}
use objxp.Timer.Clock.{IsTime, nanos, time_operators-nanos}
use objxp.Timer.Register.{WellTimed, timer_calls-WellTimed, expire-Timely}

abbrev early : Time
early = record { sec = 1; nsec = 999000000 }

abbrev late : Time
late = record { sec = 3; nsec = 5 }

abbrev all_live : ℕ → Bool
all_live t = true

abbrev expiries : ℕ → Time
expiries t = record { sec = t; nsec = 0 }

abbrev timers : Timers
timers = record { timer_list = 2 ∷ 7 ∷ []; expiry = expiries; registered = λ t. true }

in_order : Timely expiries (2 ∷ 7 ∷ [])
unfolding time_lt
in_order = ((((λ e. absurd (ground arith)), refl), tt), (tt, tt))

well_timed : WellTimed all_live timers
well_timed = record { timely = in_order; marked = (refl, (refl, tt)) }

time_operators-nanos_example :
    IsTime (add_msec late 1500)
    × (nanos (add_msec late 1500) ≡ nanos late + 1500 * 1000000)
    × ((time_lt late early ≡ true) ↔ (nanos late < nanos early))
    × ((time_eq late early ≡ true) ↔ (nanos late ≡ nanos early))
    × ((time_gt late early ≡ true) ↔ (nanos early < nanos late))
    × IsTime (time_sub late early)
    × (nanos (time_sub late early) ≡ nanos late - nanos early)
time_operators-nanos_example = time_operators-nanos late early 1500 (omega arith) (omega arith)

timer_calls-WellTimed_example :
    WellTimed all_live (register_timer all_live timers early 7 100)
    × In 7 (live_of all_live (register_timer all_live timers early 7 100).timer_list)
    × ((register_timer all_live timers early 7 100).expiry 7 ≡ add_msec early 100)
    × WellTimed all_live (unregister_timer all_live timers 2)
    × All (λ u. u ≢ 2) (live_of all_live (unregister_timer all_live timers 2).timer_list)
timer_calls-WellTimed_example = timer_calls-WellTimed all_live timers early 7 100 2 refl well_timed

expire-Timely_example :
    (let r = expire all_live expiries late (2 ∷ 7 ∷ []) in
      (r.1 ++ live_of all_live r.0 ≡ live_of all_live (2 ∷ 7 ∷ []))
      × All (λ u. is_expired (expiries u) late ≡ true) r.1
      × All (λ u. is_expired (expiries u) late ≡ false) (live_of all_live r.0))
expire-Timely_example = expire-Timely all_live expiries late (2 ∷ 7 ∷ []) in_order
