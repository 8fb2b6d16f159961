-- ===== src/Server/Finish.antt =====
-- The loop of endTransaction of src/ObexServer.cpp sends each session's transaction once.
use objxp.Common.{
  ℕ, ◌≡◌, refl, sym, ap, ◌∙◌, inl, inr, Bool, true, false, ◌&&◌, ◌||◌, List, [], ◌∷◌, arith, ◌==◌,
  if◌then◌else◌, Bool-cases, Option-cases,
}
use objxp.Server.{Session, set_session, finish_with, finish_transaction, finish_all}

unfoldable pub mem_of : ℕ → List ℕ → Bool
mem_of i [] = false
mem_of i (j ∷ l) = (i == j) || mem_of i l

module _ {Obj : Type 0} (live : ℕ → Bool) where
  finish_twice :
      (s : Session Obj) → finish_transaction (finish_transaction s) ≡ finish_transaction s
  unfolding finish_transaction
  finish_twice s = elim (Option-cases s.x_action) [
    | inl e ↦ ap finish_transaction (ap (finish_with s) e)
    | inr (cs, e) ↦ let q = ap (finish_with s) e in ap finish_transaction q ∙ sym q
  ]

  -- A session in the list that is still there has finished its transaction, and no other is changed.
  pub finish_all_lem :
      (f : ℕ → Session Obj) (l : List ℕ) (i : ℕ)
      → finish_all live f l i ≡ (if mem_of i l && live i then finish_transaction (f i) else f i)
  unfolding finish_all mem_of
  finish_all_lem f [] i = refl
  finish_all_lem f (j ∷ l) i = elim (Bool-cases (live j)) [
    | inl e ↦
        let rest = finish_all_lem (set_session f j (finish_transaction (f j))) l i in
        elim (Bool-cases (i == j)) [
          | inl q ↦
              let p : i ≡ j = ground arith in
              let alive : live i ≡ true = ap live p ∙ e in
              let done = finish_twice (f j) in
              let same : finish_transaction (f j) ≡ finish_transaction (f i) =
                ap (λ k. finish_transaction (f k)) (sym p) in
              elim (Bool-cases (mem_of i l)) [
                | inl m ↦ rw (e, q, alive) (rest ∙ rw (m, alive, q) (done ∙ same))
                | inr m ↦ rw (e, q, alive) (rest ∙ rw (m, q) same)
              ]
          | inr q ↦ rw (e, q) (rest ∙ rw q)
        ]
    | inr e ↦
        let rest = finish_all_lem f l i in
        elim (Bool-cases (i == j)) [
          | inl q ↦
              let p : i ≡ j = ground arith in
              let dead : live i ≡ false = ap live p ∙ e in
              rw (e, q, dead)
                (rest ∙ (elim (Bool-cases (mem_of i l)) [ inl m ↦ rw (m, dead) | inr m ↦ rw m ]))
          | inr q ↦ rw (e, q) rest
        ]
  ]
