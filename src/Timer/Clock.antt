-- ===== src/Timer/Clock.antt =====
-- The operators on Time of src/TimerObject.cpp are those of the numbers of nanoseconds.
use objxp.Common.{
  ℕ, ◌+◌, ◌-◌, ◌*◌, ◌%◌, ◌≤◌, ◌<◌, ◌≡◌, true, ◌↔◌, inl, inr, arith, leb, ltb, Bool-cases,
}
use objxp.Timer.{Time, billion, add_msec, time_lt, time_eq, time_gt, time_sub}

abbrev pub IsTime : Time → Type 0
IsTime t = t.nsec < billion

abbrev pub nanos : Time → ℕ
nanos t = t.sec * billion + t.nsec

pub time_lt-nanos : (l r : Time) → IsTime l → IsTime r → (time_lt l r ≡ true) ↔ (nanos l < nanos r)
unfolding time_lt
time_lt-nanos l r hl hr = (λ e. ground arith, λ k. ground arith)

add_msec-nanos :
    (t : Time) (msec : ℕ)
    → IsTime t
    → IsTime (add_msec t msec) × (nanos (add_msec t msec) ≡ nanos t + msec * 1000000)
unfolding add_msec
add_msec-nanos t msec h = elim (Bool-cases (leb billion (t.nsec + msec % 1000 * 1000000))) [
  | inl e ↦ rw e (ground arith)
  | inr e ↦ rw e (ground arith)
]

time_sub-nanos :
    (l r : Time)
    → IsTime l
    → IsTime r
    → IsTime (time_sub l r) × (nanos (time_sub l r) ≡ nanos l - nanos r)
unfolding time_sub
time_sub-nanos l r hl hr = elim (Bool-cases (time_lt r l)) [
  | inl e ↦
      let later = (time_lt-nanos r l hr hl).0 e in
      elim (Bool-cases (ltb l.nsec r.nsec)) [
        | inl f ↦ rw (e, f) (ground arith, ground arith)
        | inr f ↦ rw (e, f) (ground arith, ground arith)
      ]
  | inr e ↦
      let not_later : nanos l ≤ nanos r = (let q = (time_lt-nanos r l hr hl).1 in ground arith) in
      rw e (omega arith, omega arith)
]

-- On normalised times, adding milliseconds gives a normalised time that is later by so many
-- millions of nanoseconds, the comparisons are those of the numbers of nanoseconds, and the
-- difference is normalised, counts the nanoseconds from the right to the left time, and is zero
-- where the left is not the later one.
pub time_operators-nanos :
    (l r : Time) (msec : ℕ)
    → IsTime l
    → IsTime r
    → IsTime (add_msec l msec)
      × (nanos (add_msec l msec) ≡ nanos l + msec * 1000000)
      × ((time_lt l r ≡ true) ↔ (nanos l < nanos r))
      × ((time_eq l r ≡ true) ↔ (nanos l ≡ nanos r))
      × ((time_gt l r ≡ true) ↔ (nanos r < nanos l))
      × IsTime (time_sub l r)
      × (nanos (time_sub l r) ≡ nanos l - nanos r)
unfolding time_lt time_eq time_gt time_sub
time_operators-nanos l r msec hl hr = (
  (add_msec-nanos l msec hl).0,
  (add_msec-nanos l msec hl).1,
  time_lt-nanos l r hl hr,
  (λ e. ground arith, λ k. ground arith),
  (λ e. ground arith, λ k. ground arith),
  (time_sub-nanos l r hl hr).0,
  (time_sub-nanos l r hl hr).1,
)
