-- ===== src/Tree/Receivers.antt =====
-- putObject and delObject of src/ObexTree.cpp leave the receivers of each path as they are.
use objxp.Common.{
  ℕ, ◌≡◌, refl, sym, ap, ◌∙◌, inl, inr, Bool, true, false, Bool-cases, ◌||◌, List, [], ◌∷◌, Option,
  none, some, arith, Bytes, ◌==◌,
}
use objxp.Tree.{MetaNode, MetaTree, mem, drop_dead, a_cbs_of, i_cbs_of, c_cbs_of}
use objxp.Tree.Observe.{observe}
use objxp.Tree.Notify.{above, at_parent, registered_from}
use objxp.Tree.Registered.{LiveCallbacks, live_callbacks}

dead_ne : (live : ℕ → Bool) (c d : ℕ) → live c ≡ true → live d ≡ false → (d == c) ≡ false
dead_ne live c d h e = elim (Bool-cases (d == c)) [
  | inl q ↦ let same : d ≡ c = ground (arith, q) in absurd (cc (ap live same, h, e))
  | inr q ↦ q
]

mem-drop_dead :
    (live : ℕ → Bool) (c : ℕ) (l : List ℕ) → live c ≡ true → mem c (drop_dead live l) ≡ mem c l
unfolding mem drop_dead
mem-drop_dead live c [] h = refl
mem-drop_dead live c (d ∷ l) h =
    let below = mem-drop_dead live c l h in
    elim (Bool-cases (live d)) [
      | inl e ↦ rw e (ap (λ b. (d == c) || b) below)
      | inr e ↦ rw (e, dead_ne live c d h e) below
    ]

-- Two families of callbacks that show the same live ones.
above-same :
    (c : ℕ) (g h : List Bytes → List ℕ) (ks : List Bytes)
    → ((js : List Bytes) → mem c (g js) ≡ mem c (h js))
    → above g ks c ≡ above h ks c
above-same c g h [] e = refl
above-same c g h (k ∷ ks) e =
    rw (e [], above-same c (λ js. g (k ∷ js)) (λ js. h (k ∷ js)) ks (λ js. e (k ∷ js))) refl

at_parent-same :
    (c : ℕ) (first : List ℕ) (other : List ℕ) (g h : List Bytes → List ℕ) (ks : List Bytes)
    → mem c first ≡ mem c other
    → ((js : List Bytes) → mem c (g js) ≡ mem c (h js))
    → at_parent first g ks c ≡ at_parent other h ks c
at_parent-same c first other g h [] f e = f
at_parent-same c first other g h (k ∷ ks) f e =
    at_parent-same c (g []) (h []) (λ js. g (k ∷ js)) (λ js. h (k ∷ js)) ks (e [])
      (λ js. e (k ∷ js))

module _ {Obj : Type 0} (T : MetaTree Obj) (live : ℕ → Bool) where
  open T use {Node, value, get_path}

  -- What a selection of the live callbacks shows of the callbacks themselves.
  shows :
      (part : LiveCallbacks → List ℕ) (f : Option (MetaNode Obj) → List ℕ) (c : ℕ)
      → live c ≡ true
      → ((d : Option (MetaNode Obj)) → part (live_callbacks T live d) ≡ drop_dead live (f d))
      → (n : Node) (ks : List Bytes)
      → mem c (part (observe T (live_callbacks T live) n ks)) ≡ mem c (observe T f n ks)
  unfolding observe
  shows part f c h e n ks = at (get_path n ks)
    where
      at :
          (g : Option Node)
          → mem c (
              part (elim g [
                | none ↦ live_callbacks T live none
                | some m ↦ live_callbacks T live (value m)
              ]))
            ≡ mem c (elim g [ none ↦ f none | some m ↦ f (value m) ])
      at none = ap (mem c) (e none) ∙ mem-drop_dead live c (f none) h
      at (some m) = ap (mem c) (e (value m)) ∙ mem-drop_dead live c (f (value m)) h

  -- Where each node has the same live callbacks, a live callback is registered for the same paths.
  pub registered_from-same :
      (n n' : Node) (c : ℕ)
      → live c ≡ true
      → ((ks : List Bytes)
          → observe T (live_callbacks T live) n' ks ≡ observe T (live_callbacks T live) n ks)
      → (ks : List Bytes) → registered_from T live [] n' ks c ≡ registered_from T live [] n ks c
  registered_from-same n n' c h e ks =
      let same : (part : LiveCallbacks → List ℕ) (f : Option (MetaNode Obj) → List ℕ)
          → ((d : Option (MetaNode Obj)) → part (live_callbacks T live d) ≡ drop_dead live (f d))
          → (js : List Bytes) → mem c (observe T f n' js) ≡ mem c (observe T f n js) =
        λ part f q js.
          sym (shows part f c h q n' js)
          ∙ ap (λ l. mem c (part l)) (e js)
          ∙ shows part f c h q n js in
      rw
        (
          above-same c (observe T (a_cbs_of T) n') (observe T (a_cbs_of T) n) ks
              (same (λ l. l.below) (a_cbs_of T) (λ d. refl)),
          at_parent-same c [] [] (observe T (i_cbs_of T) n') (observe T (i_cbs_of T) n) ks refl
              (same (λ l. l.children) (i_cbs_of T) (λ d. refl)),
          same (λ l. l.own) (c_cbs_of T) (λ d. refl) ks,
        )
        refl
