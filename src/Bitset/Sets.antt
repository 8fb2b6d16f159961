-- ===== src/Bitset/Sets.antt =====
-- Bitset of src/Bitset.cpp is a set of positions.
use objxp.Common.{
  ℕ, zero, suc, ◌+◌, ◌≤◌, ◌<◌, ◌≡◌, ◌∙◌, Bool, true, false, ◌||◌, Option, none, some, ltb, leb,
  ltb→lt, ◌==◌, if◌then◌else◌, arith, Bool-cases, inl, inr,
}
use objxp.Bitset.{DynamicBitset, FirstFrom, set_bit, is_set, find_next_bit, not_negative}

module _ (B : DynamicBitset) where
  open B use {
    Bits, size, test, put, resize, reset, size-put, test-put, size-resize, test-resize, size-reset,
    test-reset, find_first, find_next, find_first_lem, find_next_lem,
  }

  -- A put within the size.
  pub is_set-put :
      (b : Bits) (p j : ℕ) (v : Bool)
      → p < size b
      → is_set B (put b p v) j ≡ (if p == j then v else is_set B b j)
  unfolding is_set
  is_set-put b p j v h = elim (Bool-cases (ltb j (size b))) [
    | inl t ↦ rw (size-put b p v, t) (test-put b p j v h (ltb→lt j (size b) t))
    | inr f ↦ rw (size-put b p v, f) (ground arith)
  ]

  is_set-resize : (b : Bits) (n j : ℕ) → size b ≤ n → is_set B (resize b n) j ≡ is_set B b j
  unfolding is_set
  is_set-resize b n j h = elim (Bool-cases (ltb j n)) [
    | inl t ↦ rw (size-resize b n, t) (test-resize b n j h (ltb→lt j n t))
    | inr f ↦ rw (size-resize b n, f) (ground arith)
  ]

  pub is_set_outside : (b : Bits) (j : ℕ) → size b ≤ j → is_set B b j ≡ false
  unfolding is_set
  is_set_outside b j h = ground arith

  pub is_set_within : (b : Bits) (j : ℕ) → j < size b → is_set B b j ≡ test b j
  unfolding is_set
  is_set_within b j h = ground arith

  pub is_set-set_bit :
      (b : Bits) (p j : ℕ) → is_set B (set_bit B b p) j ≡ ((p == j) || is_set B b j)
  unfolding set_bit
  is_set-set_bit b p j = elim (Bool-cases (leb (size b) p)) [
    | inl t ↦
        let le : size b ≤ p + 1 = ground arith in
        let small : p < size (resize b (p + 1)) = omega (arith, size-resize b (p + 1)) in
        rw (t, set_bit)
          (is_set-put (resize b (p + 1)) p j true small
            ∙ rw (is_set-resize b (p + 1) j le) (ground arith))
    | inr f ↦
        let small : p < size b = ground arith in
        rw (f, set_bit) (is_set-put b p j true small ∙ ground arith)
  ]

  FirstFrom-is_set :
      (b : Bits) (k : ℕ) (r : Option ℕ)
      → FirstFrom (test b) (size b) k r
      → FirstFrom (is_set B b) (size b) k r
  FirstFrom-is_set b k none h = λ j p q. is_set_within b j q ∙ h j p q
  FirstFrom-is_set b k (some i) (p, q, e, h) =
      (p, q, is_set_within b i q ∙ e, λ j l m. is_set_within b j (omega arith) ∙ h j l m)

  -- findNext, in terms of isSet.
  pub find_next_bit-FirstFrom :
      (b : Bits) (pos : Option ℕ)
      → FirstFrom (is_set B b) (size b) (not_negative pos) (find_next_bit B b pos)
  unfolding find_next_bit
  find_next_bit-FirstFrom b none = FirstFrom-is_set b 0 (find_first b) (find_first_lem b)
  find_next_bit-FirstFrom b (some zero) = FirstFrom-is_set b 0 (find_first b) (find_first_lem b)
  find_next_bit-FirstFrom b (some (suc p)) =
      FirstFrom-is_set b (suc p) (find_next b p) (find_next_lem b p)
