-- ===== src/Tree/Callbacks/PutPath.antt =====
-- putMetaNode of src/ObexTree.cpp along a path, seen through observations of the tree.
use objxp.Common.{
  ◌≡◌, ◌≢◌, refl, sym, ap, ◌∙◌, inl, inr, List, [], ◌∷◌, Option, none, some, arith, Bytes, bytes_eq,
  bytes_eq_iff, bytes_eq_refl, if◌then◌else◌, Bool-cases,
}
use objxp.PropertyTree.Laws.{get_child-put_child}
use objxp.Tree.{MetaNode, MetaTree, child_or_new}
use objxp.Tree.Observe.{observe, observe-nil, observe-cons, observe-child_or_new, observe-put_value}

module _ {Obj A : Type 0} (T : MetaTree Obj) (f : Option (MetaNode Obj) → A) where
  open T use {Node, value, put_child, put_path}

  observe-put_child :
      (n : Node) (k j : Bytes) (c : Node) (js : List Bytes)
      → observe T f (put_child n k c) (j ∷ js)
        ≡ (if bytes_eq k j then observe T f c js else observe T f n (j ∷ js))
  observe-put_child n k j c js =
      observe-cons T f (put_child n k c) j js
      ∙ ground (arith, get_child-put_child T n k j c, observe-cons T f n j js)

  put_path-child :
      (n : Node) (k : Bytes) (ks : List Bytes) (d : Option (MetaNode Obj))
      → put_path none n (k ∷ ks) d ≡ put_child n k (put_path none (child_or_new T n k) ks d)
  put_path-child n k ks d = unfold child_or_new in T.put_path-cons none n k ks d

  -- A write along a path shows at its end, and nowhere else.
  pub observe-put_path :
      (n : Node) (ks : List Bytes) (d : Option (MetaNode Obj))
      → observe T f (put_path none n ks d) ks ≡ f d
  observe-put_path n [] d =
      observe-nil T f _
      ∙ ap (λ t. f (value t)) (T.put_path-nil none n d)
      ∙ ap f (T.value-put_value n d)
  observe-put_path n (k ∷ ks) d =
      ap (λ t. observe T f t (k ∷ ks)) (put_path-child n k ks d)
      ∙ observe-put_child n k k _ ks
      ∙ ground (arith, bytes_eq_refl k, observe-put_path (child_or_new T n k) ks d)

  pub observe-put_path_ne :
      (n : Node) (ks js : List Bytes) (d : Option (MetaNode Obj))
      → f (some (record { c_cbs = []; i_cbs = []; a_cbs = []; o_obj = none })) ≡ f none
      → js ≢ ks
      → observe T f (put_path none n ks d) js ≡ observe T f n js
  observe-put_path_ne n [] [] d z ne = absurd (ne refl)
  observe-put_path_ne n [] (j ∷ js) d z ne =
      ap (λ t. observe T f t (j ∷ js)) (T.put_path-nil none n d) ∙ observe-put_value T f n d j js
  observe-put_path_ne n (k ∷ ks) [] d z ne =
      ap (λ t. observe T f t []) (put_path-child n k ks d)
      ∙ observe-nil T f _
      ∙ ap f (T.value-put_child n k _)
      ∙ sym (observe-nil T f n)
  observe-put_path_ne n (k ∷ ks) (j ∷ js) d z ne =
      ap (λ t. observe T f t (j ∷ js)) (put_path-child n k ks d)
      ∙ observe-put_child n k j _ js
      ∙ elim (Bool-cases (bytes_eq k j)) [
        | inl e ↦
            let same : k ≡ j = (bytes_eq_iff k j).0 e in
            rw e (
              observe-put_path_ne (child_or_new T n k) ks js d z
                (λ u. ne (ap (λ t. j ∷ t) u ∙ ap (λ t. t ∷ ks) (sym same)))
              ∙ observe-child_or_new T f n k js
              ∙ ap (λ t. observe T f n (t ∷ js)) same)
        | inr e ↦ rw e refl
      ]
