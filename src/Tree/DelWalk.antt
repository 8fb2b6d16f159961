-- ===== src/Tree/DelWalk.antt =====
-- The walk and the cleaning loop of ObexTree::delObject (src/ObexTree.cpp), seen through
-- observations of the tree.
use objxp.Common.{
  ℕ, ◌≡◌, ◌≢◌, refl, sym, ap, ◌∙◌, ◌⊎◌, inl, inr, Bool, true, false, ◌&&◌, List, [], ◌∷◌, Option,
  none, some, arith, subst, Bytes, is_empty, if◌then◌else◌, Bool-cases, Option-cases,
}
use objxp.Tree.{
  MetaNode, MetaTree, drop_dead, add_to_callback_set, prune_a, prune_i, is_trivial, obj_of,
  i_cbs_of, a_cbs_of, c_cbs_of, meta_or_new, DelOutcome, absent, removed, del_here, clean_up,
  del_walk,
}
use objxp.Tree.Observe.{
  IsStable, observe, observe-nil, observe-put_value, observe_absent, observe_present, Replaced,
  Replaced-put_child, Replaced-erase, Replaced-keep, Replaced-at, Pruned, Pruned-prune_a,
  Pruned-prune_i, Pruned-trans, Pruned-same,
}

module _ {Obj : Type 0} (T : MetaTree Obj) (live : ℕ → Bool) where
  open T use {Node, value, put_value}

  -- The MetaNode that a removal leaves.
  abbrev pub removed_meta : Option (MetaNode Obj) → MetaNode Obj
  removed_meta d = record (meta_or_new T d) { o_obj = none; c_cbs = drop_dead live (c_cbs_of T d) }

  pub record Removed (n : Node) (parent_i set : List ℕ) (r : Node × DelOutcome Obj) : Type 0 where
    pub old : Obj
    pub held : obj_of T (value n) ≡ some old
    pub node : r.0 ≡ put_value n (some (removed_meta (value n)))
    pub outcome :
        r.1
        ≡ removed old
            (add_to_callback_set live
              (add_to_callback_set live set parent_i)
              (c_cbs_of T (value n)))
            true

  pub del_here_cases :
      (parent_i set : List ℕ) (n : Node)
      → ((obj_of T (value n) ≡ none) × (del_here T live parent_i n set ≡ (n, absent)))
        ⊎ Removed n parent_i set (del_here T live parent_i n set)
  unfolding del_here
  del_here_cases parent_i set n = elim (Option-cases (value n)) [
    | inl e ↦ inl (ground arith, ground arith)
    | inr (m, e) ↦ elim (Option-cases m.o_obj) [
      | inl e' ↦ inl (ground arith, ground arith)
      | inr (old, e') ↦
          inr
            (record { old = old; held = ground arith; node = ground arith; outcome = ground arith })
    ]
  ]

module _ {Obj A : Type 0} (T : MetaTree Obj) (live : ℕ → Bool) (f : Option (MetaNode Obj) → A)
    (st : IsStable T live f) where
  open T use {Node, value, get_child}

  parent_Pruned :
      (n : Node) (b : Bool)
      → Pruned T live f st n (if b then prune_i T live (prune_a T live n) else prune_a T live n)
  parent_Pruned n true =
      Pruned-trans T live f st (Pruned-prune_a T live f st n) (Pruned-prune_i T live f st _)
  parent_Pruned n false = Pruned-prune_a T live f st n

  pub clean_up-Replaced :
      (n : Node) (k : Bytes) (b : Bool) (c : Node) (out : DelOutcome Obj)
      → Replaced T live f st n (clean_up T live (prune_a T live n) k b c out).0 k c
  unfolding clean_up
  clean_up-Replaced n k b c absent =
      Replaced-put_child T live f st n _ k c (Pruned-prune_a T live f st n)
  clean_up-Replaced n k b c (removed old set cleaning) =
      elim (Bool-cases (cleaning && is_trivial T c)) [
        | inl e ↦
            rw (e, clean_up) (Replaced-erase T live f st n _ k c (parent_Pruned n b) (ground arith))
        | inr e ↦ rw (e, clean_up) (Replaced-put_child T live f st n _ k c (parent_Pruned n b))
      ]

  -- Another path than the one of the walk, or an observation that a removal keeps.
  abbrev pub Untouched : List Bytes → List Bytes → Type 0
  Untouched js ks =
      (js ≢ ks) ⊎ ((d : Option (MetaNode Obj)) → f (some (removed_meta T live d)) ≡ f d)

  Untouched-tail : (k : Bytes) (js ks : List Bytes) → Untouched (k ∷ js) (k ∷ ks) → Untouched js ks
  Untouched-tail k js ks (inl ne) = inl (λ u. ne (ap (λ t. k ∷ t) u))
  Untouched-tail k js ks (inr kept) = inr kept

  del_here-observe :
      (parent_i : List ℕ) (n : Node) (set : List ℕ) (js : List Bytes)
      → Untouched js []
      → observe T f (del_here T live parent_i n set).0 js ≡ observe T f n js
  del_here-observe parent_i n set js ok = elim (del_here_cases T live parent_i set n) [
    | inl (_, e) ↦ ap (λ (t : Node × DelOutcome Obj). observe T f t.0 js) e
    | inr w ↦ ap (λ t. observe T f t js) w.node ∙ after js ok
  ]
    where
      after :
          (js : List Bytes)
          → Untouched js []
          → observe T f (T.put_value n (some (removed_meta T live (value n)))) js ≡ observe T f n js
      after [] (inl ne) = absurd (ne refl)
      after [] (inr kept) =
          observe-nil T f _
          ∙ ap f (T.value-put_value n _)
          ∙ kept (value n)
          ∙ sym (observe-nil T f n)
      after (j ∷ js) ok = observe-put_value T f n _ j js

  -- The walk changes what `f` shows at the end of its path at most.
  pub del_walk-observe :
      (parent_i : List ℕ) (n : Node) (ks : List Bytes) (set : List ℕ) (js : List Bytes)
      → Untouched js ks
      → observe T f (del_walk T live parent_i n ks set).0 js ≡ observe T f n js
  unfolding del_walk
  del_walk-observe parent_i n [] set js ok = del_here-observe parent_i n set js ok
  del_walk-observe parent_i n (k ∷ ks) set js ok = elim (Option-cases (get_child n k)) [
    | inl e ↦ rw (e, del_walk) (Pruned-same T live f st (Pruned-prune_a T live f st n) js)
    | inr (c, e) ↦
        rw (e, del_walk)
          (Replaced-keep T live f st (clean_up-Replaced n k (is_empty ks) _ _) js λ js' q.
            del_walk-observe (i_cbs_of T (value n)) c ks
              (add_to_callback_set live set (a_cbs_of T (value n))) js'
              (Untouched-tail k js' ks (subst (λ t. Untouched t (k ∷ ks)) q ok))
            ∙ sym (observe_present T f n k js' c e))
  ]

  -- At the end of the path there is no object afterwards.
  pub del_walk-observe_end :
      (gone : (d : Option (MetaNode Obj)) → obj_of T d ≡ none → f d ≡ f none) (parent_i : List ℕ)
      (n : Node) (ks : List Bytes) (set : List ℕ)
      → observe T f (del_walk T live parent_i n ks set).0 ks ≡ f none
  unfolding del_walk
  del_walk-observe_end gone parent_i n [] set = elim (del_here_cases T live parent_i set n) [
    | inl (h, e) ↦
        ap (λ (t : Node × DelOutcome Obj). observe T f t.0 []) e
        ∙ observe-nil T f n
        ∙ gone (value n) h
    | inr w ↦
        ap (λ t. observe T f t []) w.node
        ∙ observe-nil T f _
        ∙ ap f (T.value-put_value n _)
        ∙ gone _ refl
  ]
  del_walk-observe_end gone parent_i n (k ∷ ks) set = elim (Option-cases (get_child n k)) [
    | inl e ↦
        rw (e, del_walk)
          (Pruned-same T live f st (Pruned-prune_a T live f st n) (k ∷ ks)
            ∙ observe_absent T f n k ks e)
    | inr (c, e) ↦
        rw (e, del_walk)
          (Replaced-at T live f st (clean_up-Replaced n k (is_empty ks) _ _) ks
            ∙ del_walk-observe_end gone (i_cbs_of T (value n)) c ks
                (add_to_callback_set live set (a_cbs_of T (value n))))
  ]
