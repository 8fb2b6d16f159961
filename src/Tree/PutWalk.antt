-- ===== src/Tree/PutWalk.antt =====
-- The walk of ObexTree::putObject (src/ObexTree.cpp), seen through observations of the tree.
use objxp.Common.{
  ℕ, ◌≡◌, ◌≢◌, refl, sym, ap, ◌∙◌, ◌⊎◌, inl, inr, Bool, true, false, List, [], ◌∷◌, Option, none,
  some, arith, Bytes, is_empty, if◌then◌else◌, >>=-eq-some, Option-cases,
}
use mathlib.Core.Option.{some-injective}
use objxp.Tree.{
  MetaNode, MetaTree, drop_dead, add_to_callback_set, prune_a, child_or_new, obj_of, i_cbs_of,
  a_cbs_of, c_cbs_of, meta_or_new, PutOutcome, identical, written, put_here, put_back, put_walk,
}
use objxp.Tree.Observe.{
  IsStable, observe, observe-nil, observe-child_or_new, observe-put_value, Replaced,
  Replaced-put_child, Replaced-keep, Replaced-at, Pruned-prune_a, Pruned-prune_i, Pruned-trans,
}

module _ {Obj : Type 0} (T : MetaTree Obj) (live : ℕ → Bool) (equals : Obj → Obj → Option Bool)
    (o : Obj) where
  open T use {Node, value, put_value}

  -- The MetaNode that a write leaves at the node of the path.
  abbrev pub written_meta : Option (MetaNode Obj) → MetaNode Obj
  written_meta d = record (meta_or_new T d) {
    o_obj = some o;
    c_cbs = drop_dead live (c_cbs_of T d);
  }

  -- An equal object stops the walk, and nothing is written.
  pub record Stopped (n : Node) (r : Node × PutOutcome Obj) : Type 0 where
    pub old : Obj
    pub held : obj_of T (value n) ≡ some old
    pub equal : equals old o ≡ some true
    pub same : r ≡ (n, identical)

  pub record Wrote (n : Node) (parent_i set : List ℕ) (r : Node × PutOutcome Obj) : Type 0 where
    pub node : r.0 ≡ put_value n (some (written_meta (value n)))
    pub outcome :
        r.1
        ≡ written (obj_of T (value n)) (
            add_to_callback_set live (add_to_callback_set live set parent_i) (c_cbs_of T (value n)))

  pub put_here_cases :
      (parent_i set : List ℕ) (n : Node) (r : Node × PutOutcome Obj)
      → put_here T live equals o parent_i n set ≡ some r
      → Stopped n r ⊎ Wrote n parent_i set r
  unfolding put_here
  put_here_cases parent_i set n r h = elim (Option-cases (value n)) [
    | inl e ↦ inr (record { node = ground arith; outcome = ground arith })
    | inr (m, e) ↦ elim (Option-cases m.o_obj) [
      | inl e' ↦ inr (record { node = ground arith; outcome = ground arith })
      | inr (old, e') ↦ elim (Option-cases (equals old o)) [
        | inl e'' ↦ ground arith
        | inr (true, e'') ↦
            inl (record { old = old; held = ground arith; equal = e''; same = ground arith })
        | inr (false, e'') ↦ inr (record { node = ground arith; outcome = ground arith })
      ]
    ]
  ]

  put_here_total :
      (parent_i set : List ℕ) (n : Node)
      → ((old : Obj) → obj_of T (value n) ≡ some old → (b : Bool) × (equals old o ≡ some b))
      → (r : Node × PutOutcome Obj) × (put_here T live equals o parent_i n set ≡ some r)
  unfolding put_here
  put_here_total parent_i set n h = elim (Option-cases (obj_of T (value n))) [
    | inl e ↦ (_, no_object e)
    | inr (old, e) ↦ (_, compared old (h old e).0 e (h old e).1)
  ]
    where
      write : Node × PutOutcome Obj
      write = (
        put_value n (some (written_meta (value n))),
        written (obj_of T (value n)) (
            add_to_callback_set live (add_to_callback_set live set parent_i)
              (c_cbs_of T (value n))),
      )

      no_object : obj_of T (value n) ≡ none → put_here T live equals o parent_i n set ≡ some write
      no_object e = ground arith

      compared :
          (old : Obj) (b : Bool)
          → obj_of T (value n) ≡ some old
          → equals old o ≡ some b
          → put_here T live equals o parent_i n set ≡ some (if b then (n, identical) else write)
      compared old true e e' = ground arith
      compared old false e e' = ground arith

  -- The walk returns, if the object at its end can be compared.
  pub put_walk_total :
      (parent_i : List ℕ) (n : Node) (ks : List Bytes) (set : List ℕ)
      → ((old : Obj) → observe T (obj_of T) n ks ≡ some old → (b : Bool) × (equals old o ≡ some b))
      → (r : Node × PutOutcome Obj) × (put_walk T live equals o parent_i n ks set ≡ some r)
  unfolding put_walk
  put_walk_total parent_i n [] set h =
      put_here_total parent_i set n (λ old e. h old (observe-nil T (obj_of T) n ∙ e))
  put_walk_total parent_i n (k ∷ ks) set h =
      let (c, e) =
        put_walk_total (i_cbs_of T (value n)) (child_or_new T n k) ks
          (add_to_callback_set live set (a_cbs_of T (value n)))
          (λ old e. h old (sym (observe-child_or_new T (obj_of T) n k ks) ∙ e)) in
      (put_back T live (prune_a T live n) k (is_empty ks) c, rw e)

module _ {Obj : Type 0} (T : MetaTree Obj) (live : ℕ → Bool) where
  open T use {Node}

  pub put_back-outcome :
      (n : Node) (k : Bytes) (b : Bool) (r : Node × PutOutcome Obj)
      → (put_back T live n k b r).1 ≡ r.1
  put_back-outcome n k b (c, identical) = refl
  put_back-outcome n k b (c, written old set) = refl

module _ {Obj A : Type 0} (T : MetaTree Obj) (live : ℕ → Bool) (f : Option (MetaNode Obj) → A)
    (st : IsStable T live f) where
  open T use {Node, value, put_value}

  pub put_back-Replaced :
      (n : Node) (k : Bytes) (b : Bool) (r : Node × PutOutcome Obj)
      → Replaced T live f st n (put_back T live (prune_a T live n) k b r).0 k r.0
  put_back-Replaced n k b (c, identical) =
      Replaced-put_child T live f st n _ k c (Pruned-prune_a T live f st n)
  put_back-Replaced n k true (c, written old set) =
      Replaced-put_child T live f st n _ k c
        (Pruned-trans T live f st (Pruned-prune_a T live f st n) (Pruned-prune_i T live f st _))
  put_back-Replaced n k false (c, written old set) =
      Replaced-put_child T live f st n _ k c (Pruned-prune_a T live f st n)

  module _ (equals : Obj → Obj → Option Bool) (o : Obj) where
    -- The walk changes what `f` shows at the end of its path at most.
    pub put_walk-observe_ne :
        (parent_i : List ℕ) (n : Node) (ks : List Bytes) (set : List ℕ) (r : Node × PutOutcome Obj)
        → put_walk T live equals o parent_i n ks set ≡ some r
        → (js : List Bytes) → js ≢ ks
        → observe T f r.0 js ≡ observe T f n js
    unfolding put_walk
    put_walk-observe_ne parent_i n [] set r h [] ne = absurd (ne refl)
    put_walk-observe_ne parent_i n [] set r h (j ∷ js) ne =
        elim (put_here_cases T live equals o parent_i set n r h) [
          | inl s ↦ ap (λ (t : Node × PutOutcome Obj). observe T f t.0 (j ∷ js)) s.same
          | inr w ↦ ap (λ t. observe T f t (j ∷ js)) w.node ∙ observe-put_value T f n _ j js
        ]
    put_walk-observe_ne parent_i n (k ∷ ks) set r h js ne =
        let (c, e, e') = >>=-eq-some (put_walk T live equals o _ (child_or_new T n k) ks _) _ h in
        let step = put_back-Replaced n k (is_empty ks) c in
        let keep : observe T f (put_back T live (prune_a T live n) k (is_empty ks) c).0 js
            ≡ observe T f n js =
          Replaced-keep T live f st step js λ js' q.
            put_walk-observe_ne (i_cbs_of T (value n)) (child_or_new T n k) ks
              (add_to_callback_set live set (a_cbs_of T (value n))) c e js'
              (λ u. ne (q ∙ ap (λ t. k ∷ t) u))
            ∙ observe-child_or_new T f n k js' in
        ap (λ (t : Node × PutOutcome Obj). observe T f t.0 js) (sym (some-injective _ _ e')) ∙ keep

    -- The node of the path: `d` is its value before the walk, and what the walk did with it.
    pub record End (n : Node) (ks : List Bytes) (r : Node × PutOutcome Obj) : Type 0 where
      pub before : Option (MetaNode Obj)
      pub shown : observe T f n ks ≡ f before
      pub after :
          ((r.1 ≡ identical)
            × (observe T f r.0 ks ≡ f before)
            × ((old : Obj) × (obj_of T before ≡ some old) × (equals old o ≡ some true)))
          ⊎ ((cbs : List ℕ) × (r.1 ≡ written (obj_of T before) cbs)
              × (observe T f r.0 ks ≡ f (some (written_meta T live equals o before))))

    End-here :
        (parent_i set : List ℕ) (n : Node) (r : Node × PutOutcome Obj)
        → put_here T live equals o parent_i n set ≡ some r
        → End n [] r
    End-here parent_i set n r h = record {
      before = value n;
      shown = observe-nil T f n;
      after = elim (put_here_cases T live equals o parent_i set n r h) [
        | inl s ↦ inl (
          ap (λ (t : Node × PutOutcome Obj). t.1) s.same,
          ap (λ (t : Node × PutOutcome Obj). observe T f t.0 []) s.same ∙ observe-nil T f n,
          (s.old, s.held, s.equal),
        )
        | inr w ↦ inr (
          _,
          w.outcome,
          ap (λ t. observe T f t []) w.node ∙ observe-nil T f _ ∙ ap f (T.value-put_value n _),
        )
      ];
    }

    pub put_walk-End :
        (parent_i : List ℕ) (n : Node) (ks : List Bytes) (set : List ℕ) (r : Node × PutOutcome Obj)
        → put_walk T live equals o parent_i n ks set ≡ some r
        → End n ks r
    unfolding put_walk
    put_walk-End parent_i n [] set r h = End-here parent_i set n r h
    put_walk-End parent_i n (k ∷ ks) set r h =
        let (c, e, e') = >>=-eq-some (put_walk T live equals o _ (child_or_new T n k) ks _) _ h in
        let below : End (child_or_new T n k) ks c =
          put_walk-End (i_cbs_of T (value n)) (child_or_new T n k) ks
            (add_to_callback_set live set (a_cbs_of T (value n))) c e in
        let at : observe T f r.0 (k ∷ ks) ≡ observe T f c.0 ks =
          ap (λ (t : Node × PutOutcome Obj). observe T f t.0 (k ∷ ks)) (sym (some-injective _ _ e'))
          ∙ Replaced-at T live f st (put_back-Replaced n k (is_empty ks) c) ks in
        let out : r.1 ≡ c.1 =
          ap (λ (t : Node × PutOutcome Obj). t.1) (sym (some-injective _ _ e'))
          ∙ put_back-outcome T live _ k (is_empty ks) c in
        record {
          before = below.before;
          shown = sym (observe-child_or_new T f n k ks) ∙ below.shown;
          after = elim below.after [
            | inl (i, s, q) ↦ inl (out ∙ i, at ∙ s, q)
            | inr (cbs, i, s) ↦ inr (cbs, out ∙ i, at ∙ s)
          ];
        }
