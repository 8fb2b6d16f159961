-- ===== src/Timer.antt =====
-- Times and the timer list: src/TimerObject.cpp, include/TimerObject.h, and registerTimer,
-- unregisterTimer and the expiry loop of run in src/BasicIoService.cpp. A timer is the address of
-- its object, and `live` says whether the weak pointer to it still locks. Seconds and
-- milliseconds are not negative and do not overflow a 64-bit integer.
pub mod Order
pub mod Clock
pub mod Register
mod Tests
use objxp.Common.{
  ℕ, ◌+◌, ◌-◌, ◌*◌, ◌/◌, ◌%◌, Bool, true, false, not, ◌&&◌, ◌||◌, List, [], ◌∷◌, ltb, leb, ◌==◌,
  if◌then◌else◌,
}

pub record Time : Type 0 where
  pub sec : ℕ
  pub nsec : ℕ

abbrev pub billion : ℕ
billion = 1000000000

-- operator +(Time, msec)
unfoldable pub add_msec : Time → ℕ → Time
add_msec t msec =
    let sec = t.sec + msec / 1000 in
    let nsec = t.nsec + msec % 1000 * 1000000 in
    if leb billion nsec
    then record { sec = sec + nsec / billion; nsec = nsec % billion }
    else record { sec = sec; nsec = nsec }

-- operator <, operator == and operator >
unfoldable pub time_lt : Time → Time → Bool
time_lt l r = ltb l.sec r.sec || (l.sec == r.sec && ltb l.nsec r.nsec)

unfoldable pub time_eq : Time → Time → Bool
time_eq l r = l.sec == r.sec && l.nsec == r.nsec

unfoldable pub time_gt : Time → Time → Bool
time_gt l r = not (time_lt l r) && not (time_eq l r)

-- operator -
unfoldable pub time_sub : Time → Time → Time
time_sub l r =
    if not (time_lt r l)
    then record { sec = 0; nsec = 0 }
    else if ltb l.nsec r.nsec
    then record { sec = l.sec - r.sec - 1; nsec = billion + l.nsec - r.nsec }
    else record { sec = l.sec - r.sec; nsec = l.nsec - r.nsec }

-- The timer list, and the fields of the timers.
pub record Timers : Type 0 where
  pub timer_list : List ℕ
  pub expiry : ℕ → Time
  pub registered : ℕ → Bool

abbrev pub set_at {ℓ} : {A : Type ℓ} → (ℕ → A) → ℕ → A → ℕ → A
set_at f t a u = if u == t then a else f u

-- isExpired
abbrev pub is_expired : Time → Time → Bool
is_expired expiry now = not (time_lt now expiry)

module _ (live : ℕ → Bool) where
  -- The loop of unregisterTimer: removes the timer, and the dead ones before it.
  unfoldable pub remove_timer : ℕ → List ℕ → List ℕ
  remove_timer t [] = []
  remove_timer t (u ∷ l) =
      let rest = remove_timer t l in if live u then (if t == u then l else u ∷ rest) else rest

  unfoldable pub unregister_timer : Timers → ℕ → Timers
  unregister_timer s t = if not (s.registered t) then s else record s {
    timer_list = remove_timer t s.timer_list;
    registered = set_at s.registered t false;
  }

  -- The loop of registerTimer: inserts the timer before the first one that expires later.
  unfoldable pub insert_timer : (ℕ → Time) → ℕ → List ℕ → List ℕ
  insert_timer expiry t [] = t ∷ []
  insert_timer expiry t (u ∷ l) =
      let rest = insert_timer expiry t l in
      if live u then (if time_lt (expiry t) (expiry u) then t ∷ u ∷ l else u ∷ rest) else rest

  unfoldable pub register_timer : Timers → Time → ℕ → ℕ → Timers
  register_timer s now t msec =
      let s' = if s.registered t then unregister_timer s t else s in
      let expiry = set_at s'.expiry t (add_msec now msec) in
      record {
        timer_list = insert_timer expiry t s'.timer_list;
        expiry = expiry;
        registered = set_at s'.registered t true;
      }

  -- The loop of run: the list that is left, and the timers whose onExpired is called, in order. A
  -- callback is taken to leave the timers alone meanwhile.
  unfoldable pub expire : (ℕ → Time) → Time → List ℕ → List ℕ × List ℕ
  expire expiry now [] = ([], [])
  expire expiry now (u ∷ l) =
      let rest = expire expiry now l in
      if live u
      then (if is_expired (expiry u) now then (rest.0, u ∷ rest.1) else (u ∷ l, []))
      else rest
