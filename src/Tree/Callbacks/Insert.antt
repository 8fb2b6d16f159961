-- ===== src/Tree/Callbacks/Insert.antt =====
-- Insertion into the maps of callbacks of src/ObexTree.cpp, by address.
use objxp.Common.{ℕ, ◌≡◌, sym, ap, ◌∙◌, inl, inr, true, List, [], ◌∷◌, arith, ◌==◌, Bool-cases}
use objxp.Tree.{mem, has_address, map_insert}
use objxp.Tree.Notify.{mem-append}

-- An entry of a map under the address of a callback is one of this callback.
abbrev pub NotReused : (ℕ → ℕ) → ℕ → List ℕ → Type 0
NotReused address cb l = (c : ℕ) → mem c l ≡ true → address c ≡ address cb → c ≡ cb

has_address-mem :
    (address : ℕ → ℕ) (a : ℕ) (l : List ℕ)
    → has_address address a l ≡ true
    → (c : ℕ) × (mem c l ≡ true) × (address c ≡ a)
unfolding has_address mem
has_address-mem address a [] h = absurd (ground (arith, h))
has_address-mem address a (d ∷ l) h = elim (Bool-cases (address d == a)) [
  | inl e ↦ (d, ground arith, ground (arith, e))
  | inr e ↦
      let (c, m, q) = has_address-mem address a l (ground (arith, e)) in (c, ground (arith, m), q)
]

pub mem-map_insert :
    (address : ℕ → ℕ) (cb : ℕ) (l : List ℕ)
    → NotReused address cb l
    → mem cb (map_insert address cb l) ≡ true
unfolding map_insert mem
mem-map_insert address cb l fresh = elim (Bool-cases (has_address address (address cb) l)) [
  | inl e ↦
      let (c, m, q) = has_address-mem address (address cb) l e in
      rw e (ap (λ (x : ℕ). mem x l) (sym (fresh c m q)) ∙ m)
  | inr e ↦ rw e (mem-append cb l (cb ∷ []) ∙ ground arith)
]
