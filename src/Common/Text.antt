-- ===== src/Common/Text.antt =====
-- std::string as a list of byte values: comparison, find, substr, replace.
use Prim.Native.Char.{code}
use Prim.Native.Nat.{ℕ}
use Prim.Native.String.{String}
use mathlib.Core.Path.{◌≡◌, refl, subst}
use mathlib.Core.Bool.{Bool, true, false, ◌&&◌, ◌||◌}
use mathlib.Core.Logic.{◌≢◌, ◌↔◌}
use mathlib.Core.List.{List, [], ◌∷◌, ◌++◌, map}
use native.Mathlib.Omega.{arith}
use objxp.Common.Tests.{◌==◌, if◌then◌else◌}
use objxp.Common.Lists.{All}

abbrev pub Bytes : Type 0
Bytes = List ℕ

-- The bytes of an ASCII literal.
abbrev pub codes : String → Bytes
codes String.[] = []
codes (String.◌∷◌ c s) = code c ∷ codes s

unfoldable pub bytes_eq : Bytes → Bytes → Bool
bytes_eq [] [] = true
bytes_eq [] (y ∷ ys) = false
bytes_eq (x ∷ xs) [] = false
bytes_eq (x ∷ xs) (y ∷ ys) = (x == y) && bytes_eq xs ys

pub bytes_eq→eq : (xs ys : Bytes) → bytes_eq xs ys ≡ true → xs ≡ ys
unfolding bytes_eq
bytes_eq→eq [] [] h = refl
bytes_eq→eq [] (y ∷ ys) h = cc
bytes_eq→eq (x ∷ xs) [] h = cc
bytes_eq→eq (x ∷ xs) (y ∷ ys) h = ground (arith, bytes_eq→eq xs ys)

pub bytes_eq_refl : (xs : Bytes) → bytes_eq xs xs ≡ true
unfolding bytes_eq
bytes_eq_refl [] = refl
bytes_eq_refl (x ∷ xs) = ground (arith, bytes_eq_refl xs)

pub bytes_eq_ne : (xs ys : Bytes) → xs ≢ ys → bytes_eq xs ys ≡ false
bytes_eq_ne xs ys h = elim_eq (bytes_eq xs ys) refl
  where
    elim_eq : (b : Bool) → bytes_eq xs ys ≡ b → bytes_eq xs ys ≡ false
    elim_eq true e = absurd (h (bytes_eq→eq xs ys e))
    elim_eq false e = e

pub bytes_eq_iff : (xs ys : Bytes) → (bytes_eq xs ys ≡ true) ↔ (xs ≡ ys)
bytes_eq_iff xs ys =
    (bytes_eq→eq xs ys, λ e. subst (λ t. bytes_eq xs t ≡ true) e (bytes_eq_refl xs))

-- `s` has no byte `b`.
abbrev pub Lacks : ℕ → Bytes → Type 0
Lacks b = All (λ c. c ≢ b)

-- std::replace(begin, end, from, to).
unfoldable pub replace : ℕ → ℕ → Bytes → Bytes
replace from to = map (λ c. if c == from then to else c)

-- std::string::find(c) tested against npos.
unfoldable pub contains : ℕ → Bytes → Bool
contains b [] = false
contains b (c ∷ s) = (c == b) || contains b s

-- compare(0, n, prefix) == 0, for n the length of the prefix.
unfoldable pub starts_with : Bytes → Bytes → Bool
starts_with [] s = true
starts_with (b ∷ bs) [] = false
starts_with (b ∷ bs) (c ∷ s) = (b == c) && starts_with bs s

pub contains-Lacks : (b : ℕ) (s : Bytes) → contains b s ≡ false → Lacks b s
unfolding contains
contains-Lacks b [] h = tt
contains-Lacks b (c ∷ s) h = ground (arith, contains-Lacks b s)

pub Lacks-contains : (b : ℕ) (s : Bytes) → Lacks b s → contains b s ≡ false
unfolding contains
Lacks-contains b [] h = refl
Lacks-contains b (c ∷ s) h = ground (arith, Lacks-contains b s)

pub starts_with-append : (p s : Bytes) → starts_with p (p ++ s) ≡ true
unfolding starts_with
starts_with-append [] s = refl
starts_with-append (b ∷ p) s = ground (arith, starts_with-append p s)

pub starts_with→append : (p s : Bytes) → starts_with p s ≡ true → (r : Bytes) × (s ≡ p ++ r)
unfolding starts_with
starts_with→append [] s h = (s, refl)
starts_with→append (b ∷ p) [] h = cc
starts_with→append (b ∷ p) (c ∷ s) h =
    let rest : starts_with p s ≡ true = ground arith in
    ((starts_with→append p s rest).0, ground (arith, (starts_with→append p s rest).1))
