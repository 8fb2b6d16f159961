-- ===== src/Common/Lines.antt =====
-- std::getline(stream, token, sep) called until it fails: the tokens that the loop sees. A read at
-- the end of the stream fails, so nothing follows a separator that ends the text.
use mathlib.Core.Path.{◌≡◌, refl}
use mathlib.Core.Logic.{◌≢◌}
use mathlib.Core.List.{List, [], ◌∷◌, ◌++◌}
use Prim.Native.Nat.{ℕ}
use native.Mathlib.Omega.{arith}
use objxp.Common.Tests.{◌==◌, if◌then◌else◌}
use objxp.Common.Lists.{All}
use objxp.Common.Text.{Bytes, Lacks}

-- A byte read before the rest of the token.
abbrev pub add_head : ℕ → List Bytes → List Bytes
add_head c [] = (c ∷ []) ∷ []
add_head c (t ∷ ts) = (c ∷ t) ∷ ts

unfoldable pub getlines : ℕ → Bytes → List Bytes
getlines sep [] = []
getlines sep (c ∷ s) = let rest = getlines sep s in if c == sep then [] ∷ rest else add_head c rest

-- The tokens with a separator between each two.
unfoldable pub join : ℕ → List Bytes → Bytes
join sep [] = []
join sep (t ∷ []) = t
join sep (t ∷ u ∷ ts) = t ++ sep ∷ join sep (u ∷ ts)

abbrev pub EndsWith : ℕ → Bytes → Type 0
EndsWith sep [] = ⊥
EndsWith sep (c ∷ []) = c ≡ sep
EndsWith sep (c ∷ d ∷ s) = EndsWith sep (d ∷ s)

join-add_head : (sep c : ℕ) (ts : List Bytes) → join sep (add_head c ts) ≡ c ∷ join sep ts
unfolding join
join-add_head sep c [] = refl
join-add_head sep c (t ∷ []) = refl
join-add_head sep c (t ∷ u ∷ ts) = refl

join-nil-cons : (sep : ℕ) (ts : List Bytes) → ts ≢ [] → join sep ([] ∷ ts) ≡ sep ∷ join sep ts
unfolding join
join-nil-cons sep [] h = absurd (h refl)
join-nil-cons sep (u ∷ ts) h = refl

pub getlines-ne-nil : (sep c : ℕ) (s : Bytes) → getlines sep (c ∷ s) ≢ []
unfolding getlines
getlines-ne-nil sep c s = ground arith

-- Joining the tokens gives the text back, if it does not end in the separator.
pub join-getlines : (sep : ℕ) (s : Bytes) → ¬ EndsWith sep s → join sep (getlines sep s) ≡ s
unfolding getlines
join-getlines sep [] h = unfold join in refl
join-getlines sep (c ∷ []) h = unfold join in ground arith
join-getlines sep (c ∷ d ∷ s) h = ground (
  arith,
  join-getlines sep (d ∷ s) h,
  join-nil-cons sep (getlines sep (d ∷ s)) (getlines-ne-nil sep d s),
  join-add_head sep c (getlines sep (d ∷ s)),
)

All-add_head :
    (sep c : ℕ) (ts : List Bytes) → c ≢ sep → All (Lacks sep) ts → All (Lacks sep) (add_head c ts)
All-add_head sep c [] h a = ((h, tt), tt)
All-add_head sep c (t ∷ ts) h a = ((h, a.0), a.1)

-- The tokens hold no separator.
pub getlines-Lacks : (sep : ℕ) (s : Bytes) → All (Lacks sep) (getlines sep s)
unfolding getlines
getlines-Lacks sep [] = tt
getlines-Lacks sep (c ∷ s) =
    ground (arith, getlines-Lacks sep s, All-add_head sep c (getlines sep s))
