-- ===== src/Tree/Registered.antt =====
-- putObject and delObject of src/ObexTree.cpp lose no registration: the removal of dead callbacks
-- and of empty nodes leaves every live callback where it was.
use native.Mathlib.Decide.{ℕ_discrete}
use objxp.Common.{
  ℕ, ◌≡◌, refl, sym, ap, ◌∙◌, ◌⊎◌, inl, inr, Bool, true, List, [], ◌∷◌, Option, none, some, arith,
  Bytes, ◌>>=◌, >>=-eq-some, Bool-cases,
}
use objxp.Path.{valid_obj_path, convert_to_dot_path}
use objxp.Path.Convert.{tokens}
use objxp.Tree.{
  MetaNode, MetaTree, Notification, drop_dead, is_trivial_meta, i_cbs_of, a_cbs_of, c_cbs_of,
  put_walk, put_object, PutOutcome, del_walk, del_object, updates, deletions,
}
use objxp.Tree.Observe.{IsStable, observe}
use objxp.Tree.PutWalk.{written_meta, put_walk-observe_ne, put_walk-End}
use objxp.Tree.DelWalk.{removed_meta, del_walk-observe}

pub drop_dead_idem :
    (live : ℕ → Bool) (l : List ℕ) → drop_dead live (drop_dead live l) ≡ drop_dead live l
unfolding drop_dead
drop_dead_idem live [] = refl
drop_dead_idem live (c ∷ l) = ground (arith, drop_dead_idem live l)

pub path_discrete : Discrete (List Bytes)
path_discrete = hlevel ℕ_discrete

-- The live callbacks at a node: for itself, its children and all below it.
pub record LiveCallbacks : Type 0 where
  pub own : List ℕ
  pub children : List ℕ
  pub below : List ℕ

module _ {Obj : Type 0} (T : MetaTree Obj) (live : ℕ → Bool) where
  open T use {Node}

  abbrev pub live_callbacks : Option (MetaNode Obj) → LiveCallbacks
  live_callbacks d = record {
    own = drop_dead live (c_cbs_of T d);
    children = drop_dead live (i_cbs_of T d);
    below = drop_dead live (a_cbs_of T d);
  }

  live_callbacks-IsStable : IsStable T live live_callbacks
  unfolding drop_dead
  live_callbacks-IsStable = record {
    on_prune_a = λ m. ground (arith, drop_dead_idem live m.a_cbs);
    on_prune_i = λ m. ground (arith, drop_dead_idem live m.i_cbs);
    on_trivial = trivial;
  }
    where
      trivial :
          (d : Option (MetaNode Obj))
          → is_trivial_meta T d ≡ true
          → live_callbacks d ≡ live_callbacks none
      trivial none h = refl
      trivial (some m) h = ground arith

  on_removal :
      (d : Option (MetaNode Obj)) → live_callbacks (some (removed_meta T live d)) ≡ live_callbacks d
  unfolding drop_dead
  on_removal none = refl
  on_removal (some m) = ground (arith, drop_dead_idem live m.c_cbs)

  del_object_cases :
      (name : Bytes) (root root' : Node) (p : Bytes) (notes : List (Notification Obj))
      → del_object T live name root p ≡ some (root', notes)
      → (root' ≡ root) ⊎ ((d : Bytes) × (root' ≡ (del_walk T live [] root (tokens d) []).0))
  unfolding del_object
  del_object_cases name root root' p notes h =
      let (valid, e, h') = >>=-eq-some (valid_obj_path p) _ h in
      elim (Bool-cases valid) [
        | inr f ↦ inl (ground arith)
        | inl t ↦
            let rest : Bytes → Option (Node × List (Notification Obj)) = λ d. some (
              (del_walk T live [] root (tokens d) []).0,
              deletions T live name p (del_walk T live [] root (tokens d) []).1,
            ) in
            let h'' : (convert_to_dot_path p >>= rest) ≡ some (root', notes) = ground arith in
            let (d, e', r) = >>=-eq-some (convert_to_dot_path p) _ h'' in inr (d, ground arith)
      ]

  -- Whatever delObject does, each node has the live callbacks that it had.
  pub live_callbacks-del_object :
      (name : Bytes) (root root' : Node) (p : Bytes) (notes : List (Notification Obj))
      → del_object T live name root p ≡ some (root', notes)
      → (ks : List Bytes) → observe T live_callbacks root' ks ≡ observe T live_callbacks root ks
  live_callbacks-del_object name root root' p notes h ks =
      elim (del_object_cases name root root' p notes h) [
        | inl e ↦ ap (λ n. observe T live_callbacks n ks) e
        | inr (d, e) ↦
            ap (λ n. observe T live_callbacks n ks) e
            ∙ del_walk-observe T live live_callbacks live_callbacks-IsStable [] root (tokens d) []
                ks (inr on_removal)
      ]

  module _ (equals : Obj → Obj → Option Bool) where
    put_object_cases :
        (name : Bytes) (root root' : Node) (p : Bytes) (o : Obj) (notes : List (Notification Obj))
        → put_object T live equals name root p o ≡ some (root', notes)
        → (root' ≡ root)
          ⊎ ((d : Bytes) × (r : Node × PutOutcome Obj) × (put_walk T live equals o [] root
                  (tokens d)
                  []
                ≡ some r)
              × (root' ≡ r.0))
    unfolding put_object
    put_object_cases name root root' p o notes h =
        let (valid, e, h') = >>=-eq-some (valid_obj_path p) _ h in
        elim (Bool-cases valid) [
          | inr f ↦ inl (ground arith)
          | inl t ↦
              let rest : Bytes → Option (Node × List (Notification Obj)) = λ d.
                put_walk T live equals o [] root (tokens d) [] >>= λ r.
                some (r.0, updates T live name p o r.1) in
              let h'' : (convert_to_dot_path p >>= rest) ≡ some (root', notes) = ground arith in
              let (d, e', g) = >>=-eq-some (convert_to_dot_path p) _ h'' in
              let (r, e'', g') = >>=-eq-some (put_walk T live equals o [] root (tokens d) []) _ g in
              inr (d, r, e'', ground arith)
        ]

    on_write :
        (o : Obj) (d : Option (MetaNode Obj))
        → live_callbacks (some (written_meta T live equals o d)) ≡ live_callbacks d
    unfolding drop_dead
    on_write o none = refl
    on_write o (some m) = ground (arith, drop_dead_idem live m.c_cbs)

    put_walk-live_callbacks :
        (o : Obj) (root : Node) (ts : List Bytes) (r : Node × PutOutcome Obj)
        → put_walk T live equals o [] root ts [] ≡ some r
        → (ks : List Bytes) → observe T live_callbacks r.0 ks ≡ observe T live_callbacks root ks
    put_walk-live_callbacks o root ts r e ks = elim (path_discrete ks ts) [
      | no ne ↦
          put_walk-observe_ne T live live_callbacks live_callbacks-IsStable equals o [] root ts [] r
            e ks ne
      | yes q ↦
          ap (observe T live_callbacks r.0) q ∙ at_end ∙ ap (observe T live_callbacks root) (sym q)
    ]
      where
        at_end : observe T live_callbacks r.0 ts ≡ observe T live_callbacks root ts
        at_end =
            let fin =
              put_walk-End T live live_callbacks live_callbacks-IsStable equals o [] root ts [] r
                e in
            elim fin.after [
              | inl (_, s, _) ↦ s ∙ sym fin.shown
              | inr (_, _, s) ↦ s ∙ on_write o fin.before ∙ sym fin.shown
            ]

    -- Whenever putObject returns, each node has the live callbacks that it had.
    pub live_callbacks-put_object :
        (name : Bytes) (root root' : Node) (p : Bytes) (o : Obj) (notes : List (Notification Obj))
        → put_object T live equals name root p o ≡ some (root', notes)
        → (ks : List Bytes) → observe T live_callbacks root' ks ≡ observe T live_callbacks root ks
    live_callbacks-put_object name root root' p o notes h ks =
        elim (put_object_cases name root root' p o notes h) [
          | inl e ↦ ap (λ n. observe T live_callbacks n ks) e
          | inr (d, r, e, e') ↦
              ap (λ n. observe T live_callbacks n ks) e'
              ∙ put_walk-live_callbacks o root (tokens d) r e ks
        ]
