-- ===== src/Bitset/Alloc.antt =====
-- Allocation and comparison in Bitset of src/Bitset.cpp.
use objxp.Common.{
  ℕ, zero, suc, ◌≤◌, ◌<◌, ◌≡◌, refl, ap, ◌∙◌, subst, Bool, true, false, ◌||◌, Option, none, some,
  ltb, ltb→lt, ==_refl, ◌==◌, if◌then◌else◌, arith, Bool-cases, inl, inr,
}
use objxp.Bitset.{DynamicBitset, FirstFrom, is_set, find_next_bit, is_equal, equal_loop}
use objxp.Bitset.Sets.{find_next_bit-FirstFrom}

same_FirstFrom :
    (test : ℕ → Bool) (n k : ℕ) (r t : Option ℕ)
    → FirstFrom test n k r
    → FirstFrom test n k t
    → r ≡ t
same_FirstFrom test n k none none f g = refl
same_FirstFrom test n k none (some j) f (l, m, e, g) = absurd (ground (arith, f j l m))
same_FirstFrom test n k (some i) none (l, m, e, g) f = absurd (ground (arith, f i l m))
same_FirstFrom test n k (some i) (some j) (l, m, e, g) (l', m', e', g') =
    elim (Bool-cases (i == j)) [
      | inl same ↦ ap (λ (x : ℕ). some x) (ground arith)
      | inr other ↦ elim (Bool-cases (ltb i j)) [
        | inl lt ↦ absurd (ground (arith, g' i l (ltb→lt i j lt)))
        | inr ge ↦ absurd (ground (arith, g j l' (ground arith)))
      ]
    ]

abbrev pub verdict : Option ℕ → Option ℕ → Option Bool
verdict none none = some true
verdict none (some j) = some false
verdict (some i) none = some false
verdict (some i) (some j) = if i == j then none else some false

module _ (B : DynamicBitset) where
  open B use {Bits, size, test, put, flip, size-flip, test-flip}

  -- What allocBit gives from a position on.
  abbrev pub Allocates : Bits → ℕ → Bits × ℕ → Type 0
  Allocates b k (b', i) =
      (k ≤ i)
      × (is_set B b i ≡ false)
      × ((j : ℕ) → k ≤ j → j < i → is_set B b j ≡ true)
      × ((j : ℕ) → is_set B b' j ≡ ((i == j) || is_set B b j))

  -- At a set bit findNext stays there.
  find_next_bit_stays :
      (b : Bits) (i : ℕ) → is_set B b i ≡ true → i < size b → find_next_bit B b (some i) ≡ some i
  find_next_bit_stays b i e h =
      stays (find_next_bit B b (some i)) (find_next_bit-FirstFrom B b (some i)) refl
    where
      stays :
          (r : Option ℕ)
          → FirstFrom (is_set B b) (size b) i r
          → find_next_bit B b (some i) ≡ r
          → find_next_bit B b (some i) ≡ some i
      stays none f q = absurd (ground (arith, f i (omega arith) h))
      stays (some j) (l, m, t, f) q = elim (Bool-cases (i == j)) [
        | inl same ↦ q ∙ ap (λ (k : ℕ). some k) (ground arith)
        | inr other ↦ absurd (ground (arith, f i (omega arith) (ground arith)))
      ]

  loop_runs_on :
      (b c : Bits) (i : ℕ)
      → is_set B b i ≡ true
      → is_set B c i ≡ true
      → i < size b
      → i < size c
      → (rounds : ℕ) → equal_loop B rounds b c (some i) (some i) ≡ none
  unfolding equal_loop
  loop_runs_on b c i e f h k zero = refl
  loop_runs_on b c i e f h k (suc rounds) = rw (==_refl i) (
      ap (λ r. equal_loop B rounds b c r (find_next_bit B c (some i))) (find_next_bit_stays b i e h)
      ∙ ap (equal_loop B rounds b c (some i)) (find_next_bit_stays c i f k)
      ∙ loop_runs_on b c i e f h k rounds)

  equal_loop_lem :
      (b c : Bits) (r t : Option ℕ)
      → FirstFrom (is_set B b) (size b) 0 r
      → FirstFrom (is_set B c) (size c) 0 t
      → (rounds : ℕ) → equal_loop B (suc rounds) b c r t ≡ verdict r t
  unfolding equal_loop
  equal_loop_lem b c none none f g rounds = refl
  equal_loop_lem b c none (some j) f g rounds = refl
  equal_loop_lem b c (some i) none f g rounds = refl
  equal_loop_lem b c (some i) (some j) (l, m, e, f) (l', m', e', g) rounds =
      elim (Bool-cases (i == j)) [
        | inl same ↦
            let q : j ≡ i = ground arith in
            ap (λ x. equal_loop B (suc rounds) b c (some i) (some x)) q
            ∙ loop_runs_on b c i e (subst (λ x. is_set B c x ≡ true) q e') m (omega arith)
                (suc rounds)
            ∙ rw same refl
        | inr other ↦ rw other refl
      ]

  -- For the least set bits of two sets, if they have any: isEqual returns false after a round if
  -- they differ or only one set has a bit, and true if both are empty; and if both have the same
  -- least bit, it is still running after any number of rounds, as findNext at a set bit stays there.
  pub is_equal-verdict :
      (b c : Bits) (r t : Option ℕ)
      → FirstFrom (is_set B b) (size b) 0 r
      → FirstFrom (is_set B c) (size c) 0 t
      → (rounds : ℕ) → is_equal B (suc rounds) b c ≡ verdict r t
  unfolding is_equal
  is_equal-verdict b c r t f g rounds =
      ap (λ x. equal_loop B (suc rounds) b c x (find_next_bit B c none))
        (same_FirstFrom (is_set B b) (size b) 0 (find_next_bit B b none) r
          (find_next_bit-FirstFrom B b none) f)
      ∙ ap (equal_loop B (suc rounds) b c r) (
          same_FirstFrom (is_set B c) (size c) 0 (find_next_bit B c none) t
            (find_next_bit-FirstFrom B c none) g)
      ∙ equal_loop_lem b c r t f g rounds
