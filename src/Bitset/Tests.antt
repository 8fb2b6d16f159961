-- ===== src/Bitset/Tests.antt =====
-- Tests of src/Bitset.cpp on lists of bits.
use objxp.Common.{suc, ◌≡◌, refl, Bool, true, false, List, [], ◌∷◌, none, some, arith}
use objxp.Bitset.{FirstFrom, is_set, find_next_bit, alloc_bit, is_equal}
use objxp.Bitset.Alloc.{verdict, is_equal-verdict}
use objxp.Bitset.Listed.{listed}

abbrev bits : List Bool
bits = true ∷ true ∷ false ∷ true ∷ []

abbrev other_bits : List Bool
other_bits = true ∷ []

alloc_bit_two : alloc_bit listed bits none ≡ (true ∷ true ∷ true ∷ true ∷ [], 2)
unfolding alloc_bit find_next_bit
alloc_bit_two = refl

bits_first : FirstFrom (is_set listed bits) 4 0 (some 0)
unfolding is_set
bits_first = (omega arith, omega arith, refl, λ j l m. absurd (omega arith))

other_bits_first : FirstFrom (is_set listed other_bits) 1 0 (some 0)
unfolding is_set
other_bits_first = (omega arith, omega arith, refl, λ j l m. absurd (omega arith))

-- A comparison that is still running after a thousand rounds.
is_equal-verdict_example : is_equal listed (suc 999) bits other_bits ≡ verdict (some 0) (some 0)
is_equal-verdict_example =
    is_equal-verdict listed bits other_bits (some 0) (some 0) bits_first other_bits_first 999
