-- ===== src/Server/Transaction/Once.antt =====
-- The changes that elements with different paths, in a transaction of src/ObexServer.cpp, make: no
-- session is told twice of a path.
use objxp.Common.{
  ℕ, ◌≡◌, ◌≢◌, refl, sym, ap, ◌∙◌, inl, inr, subst, Bool, true, false, List, [], ◌∷◌, ◌++◌, map,
  arith, Bytes, bytes_eq_ne, All, All-append, In, Bool-cases, ◌==◌, append-nil, append_assoc, ◌>>=◌,
  bind_parts,
}
use objxp.Tree.{mem}
use objxp.Tree.Notify.{Distinct}
use objxp.Server.{
  Change, change_put, change_del, change_path, Server, has_change, on_change, changes_run,
}
use objxp.Server.Open.{changes_for, changes_for-snoc, Once}
use objxp.Server.Transaction.{Element, element_put, element_del}

abbrev pub element_path : {Obj : Type 0} → Element Obj → Bytes
element_path (element_put p o opt) = p
element_path (element_del p) = p

abbrev pub element_change : {Obj : Type 0} → Element Obj → Change Obj
element_change (element_put p o opt) = change_put p o
element_change (element_del p) = change_del p

pub element_change-path :
    {Obj : Type 0} (e : Element Obj) → change_path (element_change e) ≡ element_path e
element_change-path (element_put p o opt) = refl
element_change-path (element_del p) = refl

-- No path occurs twice.
abbrev pub DistinctPaths : {Obj : Type 0} → List (Element Obj) → Type 0
DistinctPaths [] = Unit
DistinctPaths (e ∷ es) = All (λ f. element_path f ≢ element_path e) es × DistinctPaths es

mem_ne : (i c : ℕ) (cbs : List ℕ) → mem c cbs ≡ false → mem i cbs ≡ true → (i == c) ≡ false
mem_ne i c cbs h k = elim (Bool-cases (i == c)) [
  | inl e ↦
      let same : i ≡ c = ground (arith, e) in absurd (cc (ap (λ (j : ℕ). mem j cbs) same, h, k))
  | inr e ↦ e
]

-- The other paths are different from this one.
pub flipped :
    {Obj : Type 0} (e : Element Obj) (fs : List (Element Obj))
    → All (λ f. element_path f ≢ element_path e) fs
    → All (λ f. element_path e ≢ element_path f) fs
flipped e [] h = tt
flipped e (f ∷ fs) (h, hs) = ((λ q. h (sym q)), flipped e fs hs)

module _ {Obj : Type 0} where
  abbrev pub IsNew : Bytes → List (ℕ × Change Obj) → Type 0
  IsNew p before = All (λ x. change_path x.1 ≢ p) before

  pub IsNew-has_change :
      (i : ℕ) (p : Bytes) (before : List (ℕ × Change Obj))
      → IsNew p before
      → has_change p (changes_for i before) ≡ false
  unfolding changes_for has_change
  IsNew-has_change i p [] h = refl
  IsNew-has_change i p ((j, c) ∷ before) (h, hs) =
      let below = IsNew-has_change i p before hs in
      let ne = bytes_eq_ne (change_path c) p h in
      elim (Bool-cases (i == j)) [ inl e ↦ rw (e, ne, below) refl | inr e ↦ rw (e, below) refl ]

  -- Telling different sessions of a change that they were not told of.
  pub Once-told :
      (ch : Change Obj) (cbs : List ℕ) (before rest : List (ℕ × Change Obj))
      → Distinct cbs
      → ((i : ℕ) → mem i cbs ≡ true → has_change (change_path ch) (changes_for i before) ≡ false)
      → Once (before ++ map (λ c. (c, ch)) cbs) rest
      → Once before (map (λ c. (c, ch)) cbs ++ rest)
  Once-told ch [] before rest d h o = subst (λ b. Once b rest) (append-nil before) o
  Once-told ch (c ∷ cbs) before rest (d, ds) h o = (
    h c (unfold mem in ground arith),
    Once-told ch cbs (before ++ ((c, ch) ∷ [])) rest ds
        (λ i m.
          ap (has_change (change_path ch))
            (changes_for-snoc i before c ch ∙ rw (mem_ne i c cbs d m) refl)
          ∙ h i (unfold mem in ground (arith, m)))
        (subst (λ b. Once b rest)
          (sym (append_assoc before ((c, ch) ∷ []) (map (λ c. (c, ch)) cbs))) o),
  )

  pub changes_run-append :
      (live : ℕ → Bool) (s : Server Obj) (xs ys : List (ℕ × Change Obj))
      → changes_run live s (xs ++ ys) ≡ (changes_run live s xs >>= λ t. changes_run live t ys)
  unfolding changes_run
  changes_run-append live s [] ys = refl
  changes_run-append live s ((i, c) ∷ xs) ys =
      bind_parts (on_change s i c) (λ t. changes_run live t xs) (λ t. changes_run live t ys)
        (λ t. changes_run live t (xs ++ ys)) (λ t. changes_run-append live t xs ys)

  told-All :
      (ch : Change Obj) (p : Bytes) (cbs : List ℕ)
      → change_path ch ≢ p
      → IsNew p (map (λ c. (c, ch)) cbs)
  told-All ch p [] h = tt
  told-All ch p (c ∷ cbs) h = (h, told-All ch p cbs h)

  -- The change is one of a list.
  abbrev pub IsAmong : List (Change Obj) → ℕ × Change Obj → Type 0
  IsAmong chs x = In x.1 chs

  pub told-IsAmong :
      (ch : Change Obj) (chs : List (Change Obj)) (cbs : List ℕ)
      → All (IsAmong (ch ∷ chs)) (map (λ c. (c, ch)) cbs)
  told-IsAmong ch chs [] = tt
  told-IsAmong ch chs (c ∷ cbs) = (inl refl, told-IsAmong ch chs cbs)

  pub later-IsAmong :
      (ch : Change Obj) (chs : List (Change Obj)) (cs : List (ℕ × Change Obj))
      → All (IsAmong chs) cs
      → All (IsAmong (ch ∷ chs)) cs
  later-IsAmong ch chs [] h = tt
  later-IsAmong ch chs (x ∷ cs) (h, hs) = (inr h, later-IsAmong ch chs cs hs)

  -- The elements that follow are new after one that has another path.
  pub still-IsNew :
      (e : Element Obj) (before : List (ℕ × Change Obj)) (cbs : List ℕ) (es : List (Element Obj))
      → All (λ f. IsNew (element_path f) before) es
      → All (λ f. element_path f ≢ element_path e) es
      → All (λ f. IsNew (element_path f) (before ++ map (λ c. (c, element_change e)) cbs)) es
  still-IsNew e before cbs [] h d = tt
  still-IsNew e before cbs (f ∷ es) (h, hs) (d, ds) = (
    All-append (λ x. change_path x.1 ≢ element_path f) before (map (λ c. (c, element_change e)) cbs)
        h
        (told-All (element_change e) (element_path f) cbs (λ q. d (sym q ∙ element_change-path e))),
    still-IsNew e before cbs es hs ds,
  )
