-- ===== src/YPath/Split.antt =====
-- Texts cut at a byte, and at "${", as src/YUtils.cpp does.
use objxp.Common.{
  ℕ, ◌≡◌, ◌≢◌, refl, Bool, true, false, List, [], ◌∷◌, ◌++◌, Option, none, some, Bytes, contains,
  getlines, Lacks, arith, ◌>>=◌, ◌>>◌, guard,
}
use objxp.YPath.{before, behind, add_first, split_open, var_value, mk_round}

pub before-append : (b : ℕ) (x y : Bytes) → Lacks b x → before b (x ++ (b ∷ y)) ≡ x
unfolding before
before-append b [] y h = ground arith
before-append b (c ∷ x) y h = ground (arith, before-append b x y h.1)

pub behind-append : (b : ℕ) (x y : Bytes) → Lacks b x → behind b (x ++ (b ∷ y)) ≡ y
unfolding behind
behind-append b [] y h = ground arith
behind-append b (c ∷ x) y h = ground (arith, behind-append b x y h.1)

pub contains-append : (b : ℕ) (x y : Bytes) → contains b (x ++ (b ∷ y)) ≡ true
unfolding contains
contains-append b [] y = ground arith
contains-append b (c ∷ x) y = ground (arith, contains-append b x y)

pub getlines-append :
    (sep : ℕ) (t r : Bytes) → Lacks sep t → getlines sep (t ++ (sep ∷ r)) ≡ t ∷ getlines sep r
unfolding getlines
getlines-append sep [] r h = ground arith
getlines-append sep (c ∷ t) r h = ground (arith, getlines-append sep t r h.1)

pub getlines_one : (sep c : ℕ) (t : Bytes) → Lacks sep (c ∷ t) → getlines sep (c ∷ t) ≡ (c ∷ t) ∷ []
unfolding getlines
getlines_one sep c [] h = ground arith
getlines_one sep c (d ∷ t) h = ground (arith, getlines_one sep d t h.1)

pub split_open-cons :
    (c : ℕ) (s : Bytes) → c ≢ b'$' → split_open (c ∷ s) ≡ add_first c (split_open s)
unfolding split_open
split_open-cons c [] h = refl
split_open-cons c (d ∷ s) h = ground arith

chain-cons :
    (c : ℕ) (x : Bytes) (b : Bool) (v t : Option Bytes)
    → (guard b >> (v >>= λ (a : Bytes). t >>= λ (r : Bytes). some (c ∷ (x ++ (a ++ r))))) ≡ (
        (guard b >> (v >>= λ (a : Bytes). t >>= λ (r : Bytes). some (x ++ (a ++ r))))
        >>= λ (u : Bytes). some (c ∷ u))
chain-cons c x false v t = refl
chain-cons c x true none t = refl
chain-cons c x true (some v) none = refl
chain-cons c x true (some v) (some t) = refl

-- A byte in front of what a round makes.
pub mk_round-add_first :
    (below : Bytes → Option Bytes) (m : List (Bytes × Bytes)) (c : ℕ) (s : Bytes)
    (o : Option (Bytes × Bytes))
    → mk_round below m (c ∷ s) (add_first c o) ≡ (mk_round below m s o >>= λ t. some (c ∷ t))
mk_round-add_first below m c s none = refl
mk_round-add_first below m c s (some (x, y)) =
    chain-cons c x (contains b'}' y) (var_value m (before b'}' y)) (below (behind b'}' y))
