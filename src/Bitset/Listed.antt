-- ===== src/Bitset/Listed.antt =====
-- Lists of bits meet what src/Bitset.cpp relies on of boost::dynamic_bitset.
use objxp.Common.{
  ℕ, zero, suc, ◌≤◌, ◌<◌, ◌≡◌, refl, ap, Bool, true, false, not, List, [], ◌∷◌, map, length, Option,
  none, some, ltb, ◌==◌, if◌then◌else◌, arith,
}
use objxp.Bitset.{DynamicBitset, FirstFrom}

abbrev pub bit : List Bool → ℕ → Bool
bit [] i = false
bit (x ∷ xs) zero = x
bit (x ∷ xs) (suc i) = bit xs i

abbrev pub put_bit : List Bool → ℕ → Bool → List Bool
put_bit [] i v = []
put_bit (x ∷ xs) zero v = v ∷ xs
put_bit (x ∷ xs) (suc i) v = x ∷ put_bit xs i v

abbrev pub resized : List Bool → ℕ → List Bool
resized xs zero = []
resized [] (suc n) = false ∷ resized [] n
resized (x ∷ xs) (suc n) = x ∷ resized xs n

abbrev pub shifted : Option ℕ → Option ℕ
shifted none = none
shifted (some i) = some (suc i)

-- The first set bit from a position on.
abbrev pub first_from : List Bool → ℕ → Option ℕ
first_from [] k = none
first_from (true ∷ xs) zero = some 0
first_from (false ∷ xs) zero = shifted (first_from xs 0)
first_from (x ∷ xs) (suc k) = shifted (first_from xs k)

pub length-put_bit : (xs : List Bool) (i : ℕ) (v : Bool) → length (put_bit xs i v) ≡ length xs
length-put_bit [] i v = refl
length-put_bit (x ∷ xs) zero v = refl
length-put_bit (x ∷ xs) (suc i) v = ap suc (length-put_bit xs i v)

pub bit-put_bit :
    (xs : List Bool) (p j : ℕ) (v : Bool)
    → p < length xs
    → j < length xs
    → bit (put_bit xs p v) j ≡ (if p == j then v else bit xs j)
bit-put_bit [] p j v h k = absurd (omega arith)
bit-put_bit (x ∷ xs) zero zero v h k = refl
bit-put_bit (x ∷ xs) zero (suc j) v h k = ground arith
bit-put_bit (x ∷ xs) (suc p) zero v h k = ground arith
bit-put_bit (x ∷ xs) (suc p) (suc j) v h k = ground (arith, bit-put_bit xs p j v)

pub length-resized : (xs : List Bool) (n : ℕ) → length (resized xs n) ≡ n
length-resized xs zero = refl
length-resized [] (suc n) = ap suc (length-resized [] n)
length-resized (x ∷ xs) (suc n) = ap suc (length-resized xs n)

pub bit-resized :
    (xs : List Bool) (n j : ℕ)
    → length xs ≤ n
    → j < n
    → bit (resized xs n) j ≡ (if ltb j (length xs) then bit xs j else false)
bit-resized xs zero j h k = absurd (omega arith)
bit-resized [] (suc n) zero h k = refl
bit-resized [] (suc n) (suc j) h k = ground (arith, bit-resized [] n j)
bit-resized (x ∷ xs) (suc n) zero h k = ground arith
bit-resized (x ∷ xs) (suc n) (suc j) h k = ground (arith, bit-resized xs n j)

pub length-map_bits : (f : Bool → Bool) (xs : List Bool) → length (map f xs) ≡ length xs
length-map_bits f [] = refl
length-map_bits f (x ∷ xs) = ap suc (length-map_bits f xs)

pub bit-map :
    (f : Bool → Bool) (xs : List Bool) (j : ℕ) → j < length xs → bit (map f xs) j ≡ f (bit xs j)
bit-map f [] j h = absurd (omega arith)
bit-map f (x ∷ xs) zero h = refl
bit-map f (x ∷ xs) (suc j) h = bit-map f xs j (omega arith)

shifted-FirstFrom :
    (x : Bool) (xs : List Bool) (k : ℕ) (r : Option ℕ)
    → FirstFrom (bit xs) (length xs) k r
    → FirstFrom (bit (x ∷ xs)) (suc (length xs)) (suc k) (shifted r)
shifted-FirstFrom x xs k none f = later
  where
    later : (j : ℕ) → suc k ≤ j → j < suc (length xs) → bit (x ∷ xs) j ≡ false
    later zero l m = absurd (omega arith)
    later (suc j) l m = f j (omega arith) (omega arith)
shifted-FirstFrom x xs k (some i) (l, m, e, f) = (omega arith, omega arith, e, later)
  where
    later : (j : ℕ) → suc k ≤ j → j < suc i → bit (x ∷ xs) j ≡ false
    later zero l m = absurd (omega arith)
    later (suc j) l m = f j (omega arith) (omega arith)

behind_clear :
    (xs : List Bool) (r : Option ℕ)
    → FirstFrom (bit (false ∷ xs)) (suc (length xs)) 1 r
    → FirstFrom (bit (false ∷ xs)) (suc (length xs)) 0 r
behind_clear xs none f = first_clear
  where
    first_clear : (j : ℕ) → 0 ≤ j → j < suc (length xs) → bit (false ∷ xs) j ≡ false
    first_clear zero l m = refl
    first_clear (suc j) l m = f (suc j) (omega arith) m
behind_clear xs (some i) (l, m, e, f) = (omega arith, m, e, first_clear)
  where
    first_clear : (j : ℕ) → 0 ≤ j → j < i → bit (false ∷ xs) j ≡ false
    first_clear zero l m = refl
    first_clear (suc j) l m = f (suc j) (omega arith) m

pub first_from-FirstFrom :
    (xs : List Bool) (k : ℕ) → FirstFrom (bit xs) (length xs) k (first_from xs k)
first_from-FirstFrom [] k = λ j l m. refl
first_from-FirstFrom (true ∷ xs) zero =
    (omega arith, omega arith, refl, λ j l m. absurd (omega arith))
first_from-FirstFrom (false ∷ xs) zero =
    behind_clear xs (shifted (first_from xs 0))
      (shifted-FirstFrom false xs 0 (first_from xs 0) (first_from-FirstFrom xs 0))
first_from-FirstFrom (true ∷ xs) (suc k) =
    shifted-FirstFrom true xs k (first_from xs k) (first_from-FirstFrom xs k)
first_from-FirstFrom (false ∷ xs) (suc k) =
    shifted-FirstFrom false xs k (first_from xs k) (first_from-FirstFrom xs k)

abbrev pub listed : DynamicBitset
listed = record {
  Bits = List Bool;
  size = length;
  test = bit;
  put = put_bit;
  resize = resized;
  flip = map not;
  reset = map (λ x. false);
  find_first = λ xs. first_from xs 0;
  find_next = λ xs p. first_from xs (suc p);
  size-put = length-put_bit;
  test-put = bit-put_bit;
  size-resize = length-resized;
  test-resize = bit-resized;
  size-flip = length-map_bits not;
  test-flip = bit-map not;
  size-reset = length-map_bits (λ x. false);
  test-reset = bit-map (λ x. false);
  find_first_lem = λ xs. first_from-FirstFrom xs 0;
  find_next_lem = λ xs p. first_from-FirstFrom xs (suc p);
}
