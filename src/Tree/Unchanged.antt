-- ===== src/Tree/Unchanged.antt =====
-- putObject of an object that is equal to the one there, and delObject where none is, of
-- src/ObexTree.cpp: nobody is told.
use objxp.Common.{
  ℕ, ◌≡◌, refl, sym, ap, ◌∙◌, inl, inr, Bool, true, List, [], ◌∷◌, Option, none, some, arith, Bytes,
  is_empty, Option-cases,
}
use objxp.Path.{valid_obj_path, convert_to_dot_path}
use objxp.Path.Convert.{tokens}
use objxp.Tree.{
  MetaTree, Notification, prune_a, child_or_new, obj_of, i_cbs_of, a_cbs_of, identical, put_here,
  put_back, put_walk, put_object, DelOutcome, add_to_callback_set, absent, removed, clean_up,
  del_walk, del_object, deletions,
}
use objxp.Tree.Observe.{observe, observe-nil, observe-child_or_new, observe_present}
use objxp.Tree.DelWalk.{del_here_cases}

module _ {Obj : Type 0} (T : MetaTree Obj) (live : ℕ → Bool) where
  open T use {Node, value, get_child}

  clean_up-absent :
      (n : Node) (k : Bytes) (b : Bool) (m : Node) (out : DelOutcome Obj)
      → out ≡ absent
      → (clean_up T live n k b m out).1 ≡ absent
  unfolding clean_up
  clean_up-absent n k b m absent h = refl
  clean_up-absent n k b m (removed old cbs c) h = cc

  -- The walk of delObject to a node with no object.
  del_walk-absent :
      (first : List ℕ) (n : Node) (ks : List Bytes) (set : List ℕ)
      → observe T (obj_of T) n ks ≡ none
      → (del_walk T live first n ks set).1 ≡ absent
  unfolding del_walk
  del_walk-absent first n [] set h = elim (del_here_cases T live first set n) [
    | inl (_, e) ↦ ap (λ (t : Node × DelOutcome Obj). t.1) e
    | inr u ↦ absurd (cc (u.held, h, observe-nil T (obj_of T) n))
  ]
  del_walk-absent first n (k ∷ ks) set h = elim (Option-cases (get_child n k)) [
    | inl e ↦ rw (e, del_walk) refl
    | inr (m, e) ↦
        let out =
          del_walk-absent (i_cbs_of T (value n)) m ks
            (add_to_callback_set live set (a_cbs_of T (value n)))
            (sym (observe_present T (obj_of T) n k ks m e) ∙ h) in
        rw (e, del_walk)
          (clean_up-absent (prune_a T live n) k (is_empty ks)
            (del_walk T live (i_cbs_of T (value n)) m ks
              (add_to_callback_set live set (a_cbs_of T (value n)))).0
            (del_walk T live (i_cbs_of T (value n)) m ks
              (add_to_callback_set live set (a_cbs_of T (value n)))).1
            out)
  ]

  pub del_object-no_object :
      (name : Bytes) (root root' : Node) (p d : Bytes) (notes : List (Notification Obj))
      → valid_obj_path p ≡ some true
      → convert_to_dot_path p ≡ some d
      → observe T (obj_of T) root (tokens d) ≡ none
      → del_object T live name root p ≡ some (root', notes)
      → notes ≡ []
  del_object-no_object name root root' p d notes hp hd h run =
      let r = del_walk T live [] root (tokens d) [] in
      let out : r.1 ≡ absent = del_walk-absent [] root (tokens d) [] h in
      let run' : del_object T live name root p ≡ some (r.0, deletions T live name p r.1) =
        (unfold del_object in rw (hp, hd) refl) in
      let same : deletions T live name p r.1 ≡ notes = cc (run, run') in
      sym same ∙ ap (deletions T live name p) out

  module _ (equals : Obj → Obj → Option Bool) where
    put_here-identical :
        (o old : Obj) (parent_i set : List ℕ) (n : Node)
        → obj_of T (value n) ≡ some old
        → equals old o ≡ some true
        → put_here T live equals o parent_i n set ≡ some (n, identical)
    unfolding put_here
    put_here-identical o old parent_i set n held q = ground arith

    -- The walk of putObject to a node with an equal object.
    put_walk-identical :
        (o old : Obj) (parent_i : List ℕ) (n : Node) (ks : List Bytes) (set : List ℕ)
        → observe T (obj_of T) n ks ≡ some old
        → equals old o ≡ some true
        → (c : Node) × (put_walk T live equals o parent_i n ks set ≡ some (c, identical))
    unfolding put_walk
    put_walk-identical o old parent_i n [] set h q =
        (n, put_here-identical o old parent_i set n (sym (observe-nil T (obj_of T) n) ∙ h) q)
    put_walk-identical o old parent_i n (k ∷ ks) set h q =
        let (c, e) =
          put_walk-identical o old (i_cbs_of T (value n)) (child_or_new T n k) ks
            (add_to_callback_set live set (a_cbs_of T (value n)))
            (observe-child_or_new T (obj_of T) n k ks ∙ h) q in
        ((put_back T live (prune_a T live n) k (is_empty ks) (c, identical)).0, rw e)

    pub put_object-equal :
        (name : Bytes) (root root' : Node) (p d : Bytes) (o old : Obj)
        (notes : List (Notification Obj))
        → valid_obj_path p ≡ some true
        → convert_to_dot_path p ≡ some d
        → observe T (obj_of T) root (tokens d) ≡ some old
        → equals old o ≡ some true
        → put_object T live equals name root p o ≡ some (root', notes)
        → notes ≡ []
    put_object-equal name root root' p d o old notes hp hd h q run =
        let (c, e) = put_walk-identical o old [] root (tokens d) [] h q in
        let run' : put_object T live equals name root p o ≡ some (c, []) =
          (unfold put_object in rw (hp, hd, e) refl) in
        cc (run, run')
