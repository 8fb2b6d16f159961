-- ===== src/Tree/Told.antt =====
-- The calls of onUpdated and onDeleted that putObject and delObject of src/ObexTree.cpp make.
use objxp.Common.{
  ℕ, ◌≡◌, refl, sym, ap, ◌∙◌, inl, inr, Bool, true, false, ◌&&◌, List, [], ◌∷◌, map, Option, some,
  arith, Bytes, is_empty, Option-cases, Bool-cases,
}
use objxp.Path.{valid_obj_path, convert_to_dot_path}
use objxp.Path.Convert.{tokens}
use objxp.Tree.{
  MetaTree, updated, deleted, mem, prune_a, i_cbs_of, a_cbs_of, obj_of, get_object, put_object,
  DelOutcome, absent, removed, clean_up, c_cbs_of, is_trivial, del_walk, del_object,
  add_to_callback_set, updates, deletions,
}
use objxp.Tree.Observe.{observe, observe-nil, observe_absent, observe_present}
use objxp.Tree.PutWalk.{put_walk-End, put_walk_total}
use objxp.Tree.DelWalk.{del_here_cases}
use objxp.Tree.Objects.{obj_of-IsStable, get_object_lem}
use objxp.Tree.Notify.{Distinct, registered_from, put_walk-callbacks, del_walk-callbacks}

module _ {Obj : Type 0} (T : MetaTree Obj) (live : ℕ → Bool) where
  open T use {Node, value, get_child}

  clean_up-removed :
      (n : Node) (k : Bytes) (b : Bool) (m : Node) (old : Obj) (cbs : List ℕ) (out : DelOutcome Obj)
      (cl : Bool)
      → out ≡ removed old cbs cl
      → (cl' : Bool) × ((clean_up T live n k b m out).1 ≡ removed old cbs cl')
  unfolding clean_up
  clean_up-removed n k b m old cbs absent cl h = cc
  clean_up-removed n k b m old cbs (removed o' cbs' c) cl h =
      elim (Bool-cases (c && is_trivial T m)) [
        | inl e ↦ (true, ground arith)
        | inr e ↦ (false, ground arith)
      ]

  del_walk-removed :
      (first : List ℕ) (n : Node) (ks : List Bytes) (set : List ℕ) (old : Obj)
      → observe T (obj_of T) n ks ≡ some old
      → (cbs : List ℕ) × (cl : Bool) × ((del_walk T live first n ks set).1 ≡ removed old cbs cl)
  unfolding del_walk
  del_walk-removed first n [] set old h = elim (del_here_cases T live first set n) [
    | inl (e, _) ↦ absurd (cc (observe-nil T (obj_of T) n))
    | inr u ↦ (
      add_to_callback_set live (add_to_callback_set live set first) (c_cbs_of T (value n)),
      true,
      ground (arith, u.outcome, u.held, observe-nil T (obj_of T) n),
    )
  ]
  del_walk-removed first n (k ∷ ks) set old h = elim (Option-cases (get_child n k)) [
    | inl e ↦ absurd (cc (observe_absent T (obj_of T) n k ks e))
    | inr (m, e) ↦
        let (cbs, cl, out) =
          del_walk-removed (i_cbs_of T (value n)) m ks
            (add_to_callback_set live set (a_cbs_of T (value n))) old
            (sym (observe_present T (obj_of T) n k ks m e) ∙ h) in
        let (cl', out') =
          clean_up-removed (prune_a T live n) k (is_empty ks)
            (del_walk T live (i_cbs_of T (value n)) m ks
              (add_to_callback_set live set (a_cbs_of T (value n)))).0
            old cbs
            (del_walk T live (i_cbs_of T (value n)) m ks
              (add_to_callback_set live set (a_cbs_of T (value n)))).1
            cl out in
        (cbs, cl', rw (e, del_walk) out')
  ]

  -- delObject of a valid path with an object returns. It calls onDeleted once on each live callback
  -- registered for the path, with the object that was there, and on no other.
  pub del_object-notifies :
      (name : Bytes) (root : Node) (p d : Bytes) (old : Obj)
      → valid_obj_path p ≡ some true
      → convert_to_dot_path p ≡ some d
      → get_object T root p ≡ some (some old)
      → (root' : Node) × (cbs : List ℕ) × (del_object T live name root p
          ≡ some (root', map (λ c. deleted c name p old) cbs))
        × Distinct cbs
        × ((c : ℕ) → mem c cbs ≡ (live c && registered_from T live [] root (tokens d) c))
  del_object-notifies name root p d old hp hd ho =
      let here : observe T (obj_of T) root (tokens d) ≡ some old =
        ground (arith, get_object_lem T live root p d hp hd) in
      let (cbs, cl, out) = del_walk-removed [] root (tokens d) [] old here in
      let rest = (del_walk T live [] root (tokens d) []).0 in
      let told = del_walk-callbacks T live [] root (tokens d) [] old cbs cl out tt in
      (
        rest,
        cbs,
        unfold del_object in rw (hp, hd) (ap (λ t. some (rest, deletions T live name p t)) out),
        told.0,
        λ c. told.1 c ∙ (unfold mem in refl),
      )

  -- putObject of a valid path, where no object or one that is not equal is there, returns. It calls
  -- onUpdated once on each live callback registered for the path, with the new object and the old
  -- one if there was one, and on no other.
  pub put_object-notifies :
      (equals : Obj → Obj → Option Bool) (name : Bytes) (root : Node) (p d : Bytes) (o : Obj)
      → valid_obj_path p ≡ some true
      → convert_to_dot_path p ≡ some d
      → ((old : Obj) → get_object T root p ≡ some (some old) → equals old o ≡ some false)
      → (root' : Node) × (before : Option Obj) × (cbs : List ℕ) × (get_object T root p
          ≡ some before)
        × (put_object T live equals name root p o
            ≡ some (root', map (λ c. updated c name p o before) cbs))
        × Distinct cbs
        × ((c : ℕ) → mem c cbs ≡ (live c && registered_from T live [] root (tokens d) c))
  put_object-notifies equals name root p d o hp hd differs =
      let look = get_object_lem T live root p d hp hd in
      let (r, e) =
        put_walk_total T live equals o [] root (tokens d) []
          (λ old u. (false, differs old (look ∙ ap (λ t. some t) u))) in
      let fin =
        put_walk-End T live (obj_of T) (obj_of-IsStable T live) equals o [] root (tokens d) [] r
          e in
      elim fin.after [
        | inl (_, _, (old, w, q)) ↦
            absurd (cc (differs old (look ∙ ap (λ t. some t) (fin.shown ∙ w)), q))
        | inr (cbs, i, _) ↦
            let told = put_walk-callbacks T live equals o [] root (tokens d) [] r e _ cbs i tt in
            (
              r.0,
              obj_of T fin.before,
              cbs,
              look ∙ ap (λ t. some t) fin.shown,
              unfold put_object in
                  rw (hp, hd, e) (ap (λ t. some (r.0, updates T live name p o t)) i),
              told.0,
              λ c. told.1 c ∙ (unfold mem in refl),
            )
      ]
