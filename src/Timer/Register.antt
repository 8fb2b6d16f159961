-- ===== src/Timer/Register.antt =====
-- registerTimer, unregisterTimer and the expiry loop of src/BasicIoService.cpp keep the timers in
-- the order of their expiry.
use objxp.Common.{
  ℕ, ◌≡◌, ◌≢◌, refl, sym, ap, ◌∙◌, inl, inr, Bool, true, false, List, [], ◌∷◌, ◌++◌, arith, All, In,
  ◌==◌, Bool-cases,
}
use objxp.Timer.{
  Time, add_msec, time_lt, Timers, set_at, is_expired, remove_timer, unregister_timer, insert_timer,
  register_timer, expire,
}
use objxp.Timer.Order.{
  Timely, live_of, insert_timer-All, insert_timer-Timely, remove_timer-All, remove_timer-Timely,
}

All-map : {P Q : ℕ → Type 0} (f : (u : ℕ) → P u → Q u) (l : List ℕ) → All P l → All Q l
All-map f [] h = tt
All-map f (u ∷ l) h = (f u h.0, All-map f l h.1)

All-both : (P Q : ℕ → Type 0) (l : List ℕ) → All P l → All Q l → All (λ u. P u × Q u) l
All-both P Q [] h k = tt
All-both P Q (u ∷ l) h k = ((h.0, k.0), All-both P Q l h.1 k.1)

set_at_ne : {A : Type 0} (f : ℕ → A) (t : ℕ) (a : A) (u : ℕ) → u ≢ t → set_at f t a u ≡ f u
set_at_ne f t a u ne = let q : (u == t) ≡ false = ground arith in rw q

set_at_eq : {A : Type 0} (f : ℕ → A) (t : ℕ) (a : A) → set_at f t a t ≡ a
set_at_eq f t a = let q : (t == t) ≡ true = ground arith in rw q

-- A new expiry of a timer that is not in the list.
Timely-set_at :
    (expiry : ℕ → Time) (t : ℕ) (e : Time) (l : List ℕ)
    → All (λ u. u ≢ t) l
    → Timely expiry l
    → Timely (set_at expiry t e) l
Timely-set_at expiry t e [] h k = tt
Timely-set_at expiry t e (u ∷ l) h k =
    let here = set_at_ne expiry t e u h.0 in
    (
      All-map
          (λ v p. (
            p.1.0,
            ap (λ w. time_lt w (set_at expiry t e u)) (set_at_ne expiry t e v p.0)
                ∙ ap (time_lt (expiry v)) here
                ∙ p.1.1,
          ))
          l
          (All-both (λ v. v ≢ t) (λ v. (v ≢ u) × (time_lt (expiry v) (expiry u) ≡ false)) l h.1
            k.0),
      Timely-set_at expiry t e l h.1 k.1,
    )

module _ (live : ℕ → Bool) where
  -- The timers that are alive are in the order of their expiry, each once and marked as registered.
  pub record WellTimed (s : Timers) : Type 0 where
    pub timely : Timely s.expiry (live_of live s.timer_list)
    pub marked : All (λ u. s.registered u ≡ true) (live_of live s.timer_list)

  unregister_timer-WellTimed :
      (s : Timers) (t : ℕ)
      → WellTimed s
      → WellTimed (unregister_timer live s t)
        × All (λ u. u ≢ t) (live_of live (unregister_timer live s t).timer_list)
  unfolding unregister_timer
  unregister_timer-WellTimed s t w = elim (Bool-cases (s.registered t)) [
    | inl e ↦
        let (a, b) = remove_timer-Timely live s.expiry t s.timer_list w.timely in
        let kept = remove_timer-All live (λ u. s.registered u ≡ true) t s.timer_list w.marked in
        let l = live_of live (remove_timer live t s.timer_list) in
        rw e (
          record {
            timely = a;
            marked =
                All-map (λ u p. set_at_ne s.registered t false u p.0 ∙ p.1) l
                  (All-both (λ u. u ≢ t) (λ u. s.registered u ≡ true) l b kept);
          },
          b,
        )
    | inr e ↦ rw e (
      w,
      All-map (λ u p q. absurd (ground (arith, sym p ∙ ap s.registered q ∙ e)))
          (live_of live s.timer_list) w.marked,
    )
  ]

  register_from :
      (s : Timers) (now : Time) (t msec : ℕ)
      → live t ≡ true
      → WellTimed s
      → All (λ u. u ≢ t) (live_of live s.timer_list)
      → WellTimed (record {
        timer_list = insert_timer live (set_at s.expiry t (add_msec now msec)) t s.timer_list;
        expiry = set_at s.expiry t (add_msec now msec);
        registered = set_at s.registered t true;
      })
  register_from s now t msec lt w h =
      let expiry = set_at s.expiry t (add_msec now msec) in
      let l = live_of live s.timer_list in
      record {
        timely =
            insert_timer-Timely live expiry t s.timer_list lt
              (Timely-set_at s.expiry t (add_msec now msec) l h w.timely) h;
        marked =
            insert_timer-All live (λ u. set_at s.registered t true u ≡ true) expiry t s.timer_list
              lt (set_at_eq s.registered t true)
              (All-map (λ u p. set_at_ne s.registered t true u p.0 ∙ p.1) l
                (All-both (λ u. u ≢ t) (λ u. s.registered u ≡ true) l h w.marked));
      }

  insert_timer-In :
      (expiry : ℕ → Time) (t : ℕ) (l : List ℕ)
      → live t ≡ true
      → In t (live_of live (insert_timer live expiry t l))
  unfolding insert_timer
  insert_timer-In expiry t [] lt = rw lt (inl refl)
  insert_timer-In expiry t (u ∷ l) lt = elim (Bool-cases (live u)) [
    | inl e ↦ elim (Bool-cases (time_lt (expiry t) (expiry u))) [
      | inl f ↦ rw (e, f, lt) (inl refl)
      | inr f ↦ rw (e, f, e) (inr (insert_timer-In expiry t l lt))
    ]
    | inr e ↦ rw e (insert_timer-In expiry t l lt)
  ]

  register_timer-WellTimed :
      (s : Timers) (now : Time) (t msec : ℕ)
      → live t ≡ true
      → WellTimed s
      → WellTimed (register_timer live s now t msec)
        × In t (live_of live (register_timer live s now t msec).timer_list)
        × ((register_timer live s now t msec).expiry t ≡ add_msec now msec)
  unfolding register_timer
  register_timer-WellTimed s now t msec lt w = elim (Bool-cases (s.registered t)) [
    | inl e ↦
        let (w', h) = unregister_timer-WellTimed s t w in
        rw e (
          register_from (unregister_timer live s t) now t msec lt w' h,
          insert_timer-In (set_at (unregister_timer live s t).expiry t (add_msec now msec)) t
              (unregister_timer live s t).timer_list lt,
          set_at_eq (unregister_timer live s t).expiry t (add_msec now msec),
        )
    | inr e ↦
        let h =
          All-map (λ u p q. absurd (ground (arith, sym p ∙ ap s.registered q ∙ e)))
            (live_of live s.timer_list) w.marked in
        rw e (
          register_from s now t msec lt w h,
          insert_timer-In (set_at s.expiry t (add_msec now msec)) t s.timer_list lt,
          set_at_eq s.expiry t (add_msec now msec),
        )
  ]

  -- registerTimer of a timer that is alive, registered or not, keeps the timers in order; the timer
  -- is then in the list and expires the given time after now. unregisterTimer keeps the timers in
  -- order too, and afterwards the timer is not among those alive.
  pub timer_calls-WellTimed :
      (s : Timers) (now : Time) (t msec u : ℕ)
      → live t ≡ true
      → WellTimed s
      → WellTimed (register_timer live s now t msec)
        × In t (live_of live (register_timer live s now t msec).timer_list)
        × ((register_timer live s now t msec).expiry t ≡ add_msec now msec)
        × WellTimed (unregister_timer live s u)
        × All (λ v. v ≢ u) (live_of live (unregister_timer live s u).timer_list)
  timer_calls-WellTimed s now t msec u lt w =
      let (a, b, c) = register_timer-WellTimed s now t msec lt w in
      let (d, e) = unregister_timer-WellTimed s u w in (a, b, c, d, e)

  lt_le : (now a b : Time) → time_lt now a ≡ true → time_lt b a ≡ false → time_lt now b ≡ true
  unfolding time_lt
  lt_le now a b h k = ground arith

  none_expired :
      (expiry : ℕ → Time) (now : Time) (t : ℕ) (l : List ℕ)
      → is_expired (expiry t) now ≡ false
      → All (λ u. (u ≢ t) × (time_lt (expiry u) (expiry t) ≡ false)) l
      → All (λ u. is_expired (expiry u) now ≡ false) l
  none_expired expiry now t l h k =
      All-map (λ u p. let q = lt_le now (expiry t) (expiry u) (ground arith) p.1 in rw q) l k

  -- Where the timers are in order, the expiry loop calls onExpired on those that are alive and
  -- expired, in the order of their expiry, and leaves in the list those that are not.
  pub expire-Timely :
      (expiry : ℕ → Time) (now : Time) (l : List ℕ)
      → Timely expiry (live_of live l)
      → (let r = expire live expiry now l in
          (r.1 ++ live_of live r.0 ≡ live_of live l)
          × All (λ u. is_expired (expiry u) now ≡ true) r.1
          × All (λ u. is_expired (expiry u) now ≡ false) (live_of live r.0))
  unfolding expire
  expire-Timely expiry now [] h = (refl, tt, tt)
  expire-Timely expiry now (u ∷ l) h = elim (Bool-cases (live u)) [
    | inl e ↦
        let h' : Timely expiry (u ∷ live_of live l) = rw e at h in
        elim (Bool-cases (is_expired (expiry u) now)) [
          | inl f ↦
              let (a, b, c) = expire-Timely expiry now l h'.1 in
              rw (e, f) (ap (λ t. u ∷ t) a, (f, b), c)
          | inr f ↦ rw (e, f, e) (refl, tt, (f, none_expired expiry now u (live_of live l) f h'.0))
        ]
    | inr e ↦
        let h' : Timely expiry (live_of live l) = rw e at h in rw e (expire-Timely expiry now l h')
  ]
