-- ===== src/Bitset.antt =====
-- Bitset of src/Bitset.cpp and include/Bitset.h, over an interface for boost::dynamic_bitset, which
-- is not part of the repository. A position is an int: `none` is a negative one, such as
-- invalidPos.
pub mod Sets
pub mod Alloc
pub mod Listed
mod Tests
use objxp.Common.{
  ℕ, zero, suc, ◌+◌, ◌≤◌, ◌<◌, ◌≡◌, Bool, true, false, not, Option, none, some, ltb, leb, ◌==◌,
  if◌then◌else◌,
}

-- The first set bit at a position from `k` on is `r`, or there is none.
abbrev pub FirstFrom : (ℕ → Bool) → ℕ → ℕ → Option ℕ → Type 0
FirstFrom test size k none = (j : ℕ) → k ≤ j → j < size → test j ≡ false
FirstFrom test size k (some i) =
    (k ≤ i) × (i < size) × (test i ≡ true) × ((j : ℕ) → k ≤ j → j < i → test j ≡ false)

-- What the code relies on of boost::dynamic_bitset<>.
pub record DynamicBitset : Type 1 where
  pub Bits : Type 0
  pub size : Bits → ℕ
  -- operator[], read and assigned to.
  pub test : Bits → ℕ → Bool
  pub put : Bits → ℕ → Bool → Bits
  pub resize : Bits → ℕ → Bits
  pub flip : Bits → Bits
  pub reset : Bits → Bits
  -- npos is `none`.
  pub find_first : Bits → Option ℕ
  pub find_next : Bits → ℕ → Option ℕ
  pub size-put : (b : Bits) (p : ℕ) (v : Bool) → size (put b p v) ≡ size b
  pub test-put :
      (b : Bits) (p j : ℕ) (v : Bool)
      → p < size b
      → j < size b
      → test (put b p v) j ≡ (if p == j then v else test b j)
  pub size-resize : (b : Bits) (n : ℕ) → size (resize b n) ≡ n
  -- A longer set gets zeros.
  pub test-resize :
      (b : Bits) (n j : ℕ)
      → size b ≤ n
      → j < n
      → test (resize b n) j ≡ (if ltb j (size b) then test b j else false)
  pub size-flip : (b : Bits) → size (flip b) ≡ size b
  pub test-flip : (b : Bits) (j : ℕ) → j < size b → test (flip b) j ≡ not (test b j)
  pub size-reset : (b : Bits) → size (reset b) ≡ size b
  pub test-reset : (b : Bits) (j : ℕ) → j < size b → test (reset b) j ≡ false
  pub find_first_lem : (b : Bits) → FirstFrom (test b) (size b) 0 (find_first b)
  pub find_next_lem : (b : Bits) (p : ℕ) → FirstFrom (test b) (size b) (suc p) (find_next b p)

abbrev pub not_negative : Option ℕ → ℕ
not_negative none = 0
not_negative (some p) = p

abbrev pub same_pos : Option ℕ → Option ℕ → Bool
same_pos none none = true
same_pos none (some j) = false
same_pos (some i) none = false
same_pos (some i) (some j) = i == j

module _ (B : DynamicBitset) where
  open B use {Bits, size, test, put, resize, flip, find_first, find_next}

  unfoldable pub set_bit : Bits → ℕ → Bits
  set_bit b pos = put (if leb (size b) pos then resize b (pos + 1) else b) pos true

  unfoldable pub clear_bit : Bits → ℕ → Bits
  clear_bit b pos = if ltb pos (size b) then put b pos false else b

  unfoldable pub is_set : Bits → ℕ → Bool
  is_set b pos = if ltb pos (size b) then test b pos else false

  -- findNext
  unfoldable pub find_next_bit : Bits → Option ℕ → Option ℕ
  find_next_bit b none = find_first b
  find_next_bit b (some zero) = find_first b
  find_next_bit b (some (suc p)) = find_next b p

  -- What allocBit does with the first clear bit that it finds.
  abbrev pub alloc_found : Bits → Option ℕ → Bits × ℕ
  alloc_found b none = (set_bit b (size b), size b)
  alloc_found b (some i) = (put b i true, i)

  unfoldable pub alloc_bit : Bits → Option ℕ → Bits × ℕ
  alloc_bit b pos =
      let p = not_negative pos in
      if leb (size b) p then (set_bit b p, p) else alloc_found b (find_next_bit (flip b) (some p))

  -- The loop of isEqual; `none` says that it is still running after that many rounds.
  unfoldable pub equal_loop : ℕ → Bits → Bits → Option ℕ → Option ℕ → Option Bool
  equal_loop zero b c i j = none
  equal_loop (suc rounds) b c none j = some (same_pos none j)
  equal_loop (suc rounds) b c (some i) j =
      let next = equal_loop rounds b c (find_next_bit b (some i)) (find_next_bit c j) in
      if same_pos (some i) j then next else some false

  unfoldable pub is_equal : ℕ → Bits → Bits → Option Bool
  is_equal rounds b c = equal_loop rounds b c (find_next_bit b none) (find_next_bit c none)
