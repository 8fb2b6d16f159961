-- ===== src/Timer/Order.antt =====
-- The order of the timer list of src/BasicIoService.cpp.
use objxp.Common.{
  ℕ, ◌≡◌, ◌≢◌, sym, ◌∙◌, inl, inr, Bool, true, false, List, [], ◌∷◌, arith, All, ◌==◌,
  if◌then◌else◌, Bool-cases,
}
use objxp.Timer.{Time, time_lt, remove_timer, insert_timer}

pub time_lt_irrefl : (t : Time) → time_lt t t ≡ false
unfolding time_lt
time_lt_irrefl t = ground arith

-- Not later than, through a time between.
pub time_le_trans : (a b c : Time) → time_lt b a ≡ false → time_lt c b ≡ false → time_lt c a ≡ false
unfolding time_lt
time_le_trans a b c h k = ground arith

time_lt-le : (a b : Time) → time_lt a b ≡ true → time_lt b a ≡ false
unfolding time_lt
time_lt-le a b h = ground arith

-- The timers of a list in the order of their expiry, each once.
abbrev pub Timely : (ℕ → Time) → List ℕ → Type 0
Timely expiry [] = Unit
Timely expiry (t ∷ l) =
    All (λ u. (u ≢ t) × (time_lt (expiry u) (expiry t) ≡ false)) l × Timely expiry l

module _ (live : ℕ → Bool) where
  -- The timers of a list that are still there.
  abbrev pub live_of : List ℕ → List ℕ
  live_of [] = []
  live_of (t ∷ l) = if live t then t ∷ live_of l else live_of l

  pub insert_timer-All :
      (P : ℕ → Type 0) (expiry : ℕ → Time) (t : ℕ) (l : List ℕ)
      → live t ≡ true
      → P t
      → All P (live_of l)
      → All P (live_of (insert_timer live expiry t l))
  unfolding insert_timer
  insert_timer-All P expiry t [] lt h hs = rw lt (h, tt)
  insert_timer-All P expiry t (u ∷ l) lt h hs = elim (Bool-cases (live u)) [
    | inl e ↦
        let hs' : P u × All P (live_of l) = rw e at hs in
        elim (Bool-cases (time_lt (expiry t) (expiry u))) [
          | inl f ↦ rw (e, f, lt, e) (h, hs')
          | inr f ↦ rw (e, f, e) (hs'.0, insert_timer-All P expiry t l lt h hs'.1)
        ]
    | inr e ↦
        let hs' : All P (live_of l) = rw e at hs in rw e (insert_timer-All P expiry t l lt h hs')
  ]

  pub insert_timer-Timely :
      (expiry : ℕ → Time) (t : ℕ) (l : List ℕ)
      → live t ≡ true
      → Timely expiry (live_of l)
      → All (λ u. u ≢ t) (live_of l)
      → Timely expiry (live_of (insert_timer live expiry t l))
  unfolding insert_timer
  insert_timer-Timely expiry t [] lt h hs = rw lt (tt, tt)
  insert_timer-Timely expiry t (u ∷ l) lt h hs = elim (Bool-cases (live u)) [
    | inl e ↦
        let h' : Timely expiry (u ∷ live_of l) = rw e at h in
        let hs' : All (λ v. v ≢ t) (u ∷ live_of l) = rw e at hs in
        elim (Bool-cases (time_lt (expiry t) (expiry u))) [
          | inl f ↦
              let first : time_lt (expiry u) (expiry t) ≡ false =
                time_lt-le (expiry t) (expiry u) f in
              rw (e, f, lt, e)
                (((hs'.0, first), before expiry t u (live_of l) first hs'.1 h'.0), h')
          | inr f ↦
              rw (e, f, e)
                (
                  insert_timer-All (λ v. (v ≢ u) × (time_lt (expiry v) (expiry u) ≡ false)) expiry t
                      l lt ((λ q. hs'.0 (sym q)), f) h'.0,
                  insert_timer-Timely expiry t l lt h'.1 hs'.1,
                )
        ]
    | inr e ↦
        let h' : Timely expiry (live_of l) = rw e at h in
        let hs' : All (λ v. v ≢ t) (live_of l) = rw e at hs in
        rw e (insert_timer-Timely expiry t l lt h' hs')
  ]
    where
      before :
          (expiry : ℕ → Time) (t u : ℕ) (l : List ℕ)
          → time_lt (expiry u) (expiry t) ≡ false
          → All (λ v. v ≢ t) l
          → All (λ v. (v ≢ u) × (time_lt (expiry v) (expiry u) ≡ false)) l
          → All (λ v. (v ≢ t) × (time_lt (expiry v) (expiry t) ≡ false)) l
      before expiry t u [] f hs h = tt
      before expiry t u (v ∷ l) f hs h = (
        (hs.0, time_le_trans (expiry t) (expiry u) (expiry v) f h.0.1),
        before expiry t u l f hs.1 h.1,
      )

  pub remove_timer-All :
      (P : ℕ → Type 0) (t : ℕ) (l : List ℕ)
      → All P (live_of l)
      → All P (live_of (remove_timer live t l))
  unfolding remove_timer
  remove_timer-All P t [] h = tt
  remove_timer-All P t (u ∷ l) h = elim (Bool-cases (live u)) [
    | inl e ↦
        let h' : P u × All P (live_of l) = rw e at h in
        elim (Bool-cases (t == u)) [
          | inl f ↦ rw (e, f) h'.1
          | inr f ↦ rw (e, f, e) (h'.0, remove_timer-All P t l h'.1)
        ]
    | inr e ↦ let h' : All P (live_of l) = rw e at h in rw e (remove_timer-All P t l h')
  ]

  pub remove_timer-Timely :
      (expiry : ℕ → Time) (t : ℕ) (l : List ℕ)
      → Timely expiry (live_of l)
      → Timely expiry (live_of (remove_timer live t l))
        × All (λ u. u ≢ t) (live_of (remove_timer live t l))
  unfolding remove_timer
  remove_timer-Timely expiry t [] h = (tt, tt)
  remove_timer-Timely expiry t (u ∷ l) h = elim (Bool-cases (live u)) [
    | inl e ↦
        let h' : Timely expiry (u ∷ live_of l) = rw e at h in
        elim (Bool-cases (t == u)) [
          | inl f ↦
              let same : t ≡ u = ground arith in
              rw (e, f) (h'.1, others expiry t u (live_of l) same h'.0)
          | inr f ↦
              let (a, b) = remove_timer-Timely expiry t l h'.1 in
              rw (e, f, e)
                (
                  (
                    remove_timer-All (λ v. (v ≢ u) × (time_lt (expiry v) (expiry u) ≡ false)) t l
                        h'.0,
                    a,
                  ),
                  ((λ q. absurd (ground arith)), b),
                )
        ]
    | inr e ↦
        let h' : Timely expiry (live_of l) = rw e at h in rw e (remove_timer-Timely expiry t l h')
  ]
    where
      others :
          (expiry : ℕ → Time) (t u : ℕ) (l : List ℕ)
          → t ≡ u
          → All (λ v. (v ≢ u) × (time_lt (expiry v) (expiry u) ≡ false)) l
          → All (λ v. v ≢ t) l
      others expiry t u [] e h = tt
      others expiry t u (v ∷ l) e h = ((λ q. h.0.0 (q ∙ e)), others expiry t u l e h.1)
