-- ===== src/Tree/Objects.antt =====
-- The tree of src/ObexTree.cpp as a map from paths to objects: getObject after putObject and
-- delObject, through every intermediate node that is created, pruned or removed.
use objxp.Common.{
  ℕ, ◌≡◌, ◌≢◌, refl, sym, ap, ◌∙◌, inl, inr, Bool, true, List, [], ◌∷◌, Option, none, some, arith,
  Bytes, getlines,
}
use objxp.Path.{valid_obj_path, convert_to_dot_path}
use objxp.Path.Convert.{tokens, tokens_injective, convert_to_slash_path-convert_to_dot_path}
use objxp.Tree.{
  MetaNode, MetaTree, is_trivial_meta, obj_of, Notification, get_meta_node, get_object, put_walk,
  put_object, del_walk, del_object, PutOutcome, updates, deletions,
}
use objxp.Tree.Observe.{IsStable, observe, observe-nil}
use objxp.Tree.PutWalk.{put_walk-observe_ne, put_walk-End, put_walk_total}
use objxp.Tree.DelWalk.{del_walk-observe, del_walk-observe_end}

module _ {Obj : Type 0} (T : MetaTree Obj) (live : ℕ → Bool) where
  open T use {Node, value}

  pub obj_of-IsStable : IsStable T live (obj_of T)
  obj_of-IsStable = record { on_prune_a = λ m. refl; on_prune_i = λ m. refl; on_trivial = trivial }
    where
      trivial : (d : Option (MetaNode Obj)) → is_trivial_meta T d ≡ true → obj_of T d ≡ none
      trivial none h = refl
      trivial (some m) h = ground arith

  pub meta_observe :
      (root : Node) (d : Bytes)
      → obj_of T (get_meta_node T root d) ≡ observe T (obj_of T) root (tokens d)
  unfolding get_meta_node getlines
  meta_observe root [] = sym (observe-nil T (obj_of T) root)
  meta_observe root (c ∷ d) = unfold observe in ground arith

  -- A lookup that succeeds reads the object at the tokens of the dotted path.
  pub get_object_lem :
      (root : Node) (p d : Bytes)
      → valid_obj_path p ≡ some true
      → convert_to_dot_path p ≡ some d
      → get_object T root p ≡ some (observe T (obj_of T) root (tokens d))
  get_object_lem root p d hp hd =
      unfold get_object in rw (hp, hd) (ap (λ t. some t) (meta_observe root d))

  pub tokens-ne :
      (p q d e : Bytes)
      → valid_obj_path p ≡ some true
      → valid_obj_path q ≡ some true
      → convert_to_dot_path p ≡ some d
      → convert_to_dot_path q ≡ some e
      → q ≢ p
      → tokens e ≢ tokens d
  tokens-ne p q d e hp hq hd he ne t = ne (tokens_injective q p e d hq hp he hd t)

  pub del_object_reads :
      (name : Bytes) (root : Node) (p : Bytes)
      → valid_obj_path p ≡ some true
      → (root' : Node) × (notes : List (Notification Obj)) × (del_object T live name root p
          ≡ some (root', notes))
        × (get_object T root' p ≡ some none)
        × ((q : Bytes)
            → valid_obj_path q ≡ some true
            → q ≢ p
            → get_object T root' q ≡ get_object T root q)
  del_object_reads name root p hp =
      let (d, hd, _) = convert_to_slash_path-convert_to_dot_path p hp in
      let r = del_walk T live [] root (tokens d) [] in
      (
        r.0,
        deletions T live name p r.1,
        unfold del_object in rw (hp, hd),
        get_object_lem r.0 p d hp hd
            ∙ ap (λ t. some t)
                (del_walk-observe_end T live (obj_of T) obj_of-IsStable (λ _ h. h) [] root
                  (tokens d) []),
        λ q hq ne.
            let (e, he, _) = convert_to_slash_path-convert_to_dot_path q hq in
            get_object_lem r.0 q e hq he
            ∙ ap (λ t. some t)
                (del_walk-observe T live (obj_of T) obj_of-IsStable [] root (tokens d) [] (tokens e)
                  (inl (tokens-ne p q d e hp hq hd he ne)))
            ∙ sym (get_object_lem root q e hq he),
      )

  -- delObject of a valid path returns. Afterwards the path has no object, and any other valid path
  -- has the object, or the absence of one, that it had: the removal of empty nodes up the tree
  -- loses nothing.
  pub get_object-del_object :
      (name : Bytes) (root : Node) (p q : Bytes)
      → valid_obj_path p ≡ some true
      → valid_obj_path q ≡ some true
      → q ≢ p
      → (root' : Node) × (notes : List (Notification Obj)) × (del_object T live name root p
          ≡ some (root', notes))
        × (get_object T root' p ≡ some none)
        × (get_object T root' q ≡ get_object T root q)
  get_object-del_object name root p q hp hq ne =
      let (root', notes, run, gone, rest) = del_object_reads name root p hp in
      (root', notes, run, gone, rest q hq ne)

  module _ (equals : Obj → Obj → Option Bool) where
    -- What putObject may do at its own path: nothing, where it finds an equal object, or store.
    pub data Stores (root root' : Node) (p : Bytes) (o : Obj) (notes : List (Notification Obj))
        : Type 0 where
      kept :
          (old : Obj)
          → get_object T root p ≡ some (some old)
          → equals old o ≡ some true
          → get_object T root' p ≡ some (some old)
          → notes ≡ []
          → Stores root root' p o notes
      stored : get_object T root' p ≡ some (some o) → Stores root root' p o notes

    pub put_object_reads :
        (name : Bytes) (root : Node) (p : Bytes) (o : Obj)
        → valid_obj_path p ≡ some true
        → ((old : Obj)
            → get_object T root p ≡ some (some old)
            → (b : Bool) × (equals old o ≡ some b))
        → (root' : Node) × (notes : List (Notification Obj)) × (put_object T live equals name root p
              o
            ≡ some (root', notes))
          × Stores root root' p o notes
          × ((q : Bytes)
              → valid_obj_path q ≡ some true
              → q ≢ p
              → get_object T root' q ≡ get_object T root q)
    put_object_reads name root p o hp comparable =
        let (d, hd, _) = convert_to_slash_path-convert_to_dot_path p hp in
        let (r, e) =
          put_walk_total T live equals o [] root (tokens d) []
            (λ old u. comparable old (get_object_lem root p d hp hd ∙ ap (λ t. some t) u)) in
        (
          r.0,
          updates T live name p o r.1,
          unfold put_object in rw (hp, hd, e),
          ends d hd r e,
          λ q hq ne.
              let (e', he, _) = convert_to_slash_path-convert_to_dot_path q hq in
              get_object_lem r.0 q e' hq he
              ∙ ap (λ t. some t)
                  (put_walk-observe_ne T live (obj_of T) obj_of-IsStable equals o [] root (tokens d)
                    [] r e (tokens e') (tokens-ne p q d e' hp hq hd he ne))
              ∙ sym (get_object_lem root q e' hq he),
        )
      where
        ends :
            (d : Bytes)
            → convert_to_dot_path p ≡ some d
            → (r : Node × PutOutcome Obj) → put_walk T live equals o [] root (tokens d) [] ≡ some r
            → Stores root r.0 p o (updates T live name p o r.1)
        ends d hd r e =
            let fin =
              put_walk-End T live (obj_of T) obj_of-IsStable equals o [] root (tokens d) [] r e in
            let before = get_object_lem root p d hp hd in
            let after = get_object_lem r.0 p d hp hd in
            elim fin.after [
              | inl (i, s, (old, w, q)) ↦
                  kept old (before ∙ ap (λ t. some t) (fin.shown ∙ w)) q
                    (after ∙ ap (λ t. some t) (s ∙ w)) (ap (updates T live name p o) i)
              | inr (cbs, i, s) ↦ stored (after ∙ ap (λ t. some t) s)
            ]

    -- putObject at a valid path returns, provided that the comparison with an object that is
    -- already there returns. Afterwards the path has the new object, or, where the old one is
    -- equal to it, the old one and nobody is notified; any other valid path reads as before.
    pub get_object-put_object :
        (name : Bytes) (root : Node) (p q : Bytes) (o : Obj)
        → valid_obj_path p ≡ some true
        → valid_obj_path q ≡ some true
        → q ≢ p
        → ((old : Obj)
            → get_object T root p ≡ some (some old)
            → (b : Bool) × (equals old o ≡ some b))
        → (root' : Node) × (notes : List (Notification Obj)) × (put_object T live equals name root p
              o
            ≡ some (root', notes))
          × Stores root root' p o notes
          × (get_object T root' q ≡ get_object T root q)
    get_object-put_object name root p q o hp hq ne comparable =
        let (root', notes, run, stores, rest) = put_object_reads name root p o hp comparable in
        (root', notes, run, stores, rest q hq ne)
