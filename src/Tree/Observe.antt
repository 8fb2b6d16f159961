-- ===== src/Tree/Observe.antt =====
-- What can be read at a path of the tree, and how it is kept by the steps of the walks of
-- src/ObexTree.cpp. An observation reads the MetaNode of one node: its object, or its live
-- callbacks. It is stable if neither the removal of dead callbacks nor the removal of an empty
-- node shows.
use objxp.Common.{
  ℕ, ◌≡◌, refl, sym, ap, ◌∙◌, inl, inr, Bool, true, List, [], ◌∷◌, Option, none, some, arith, Bytes,
  bytes_eq, bytes_eq_iff, bytes_eq_refl, if◌then◌else◌, Bool-cases, Option-cases,
}
use objxp.PropertyTree.{assoc_get}
use objxp.PropertyTree.Laws.{
  get_child-put_child, get_child-erase, get_child-put_value, get_child-empty,
}
use objxp.Tree.{
  MetaNode, MetaTree, drop_dead, update_meta, prune_a, prune_i, is_trivial_meta, is_trivial,
  child_or_new,
}

-- Neither the removal of dead callbacks nor an empty node shows.
pub record IsStable {Obj A : Type 0} (T : MetaTree Obj) (live : ℕ → Bool)
    (f : Option (MetaNode Obj) → A) : Type 0 where
  pub on_prune_a :
      (m : MetaNode Obj) → f (some (record m { a_cbs = drop_dead live m.a_cbs })) ≡ f (some m)
  pub on_prune_i :
      (m : MetaNode Obj) → f (some (record m { i_cbs = drop_dead live m.i_cbs })) ≡ f (some m)
  pub on_trivial : (d : Option (MetaNode Obj)) → is_trivial_meta T d ≡ true → f d ≡ f none

module _ {Obj A : Type 0} (T : MetaTree Obj) (f : Option (MetaNode Obj) → A) where
  open T use {Node, value, get_child, put_value, get_path}

  unfoldable pub observe : Node → List Bytes → A
  observe n ks = elim (get_path n ks) [ none ↦ f none | some c ↦ f (value c) ]

  pub observe-nil : (n : Node) → observe n [] ≡ f (value n)
  unfolding observe
  observe-nil n = rw (T.get_path-nil n, observe)

  abbrev pub under : Option Node → List Bytes → A
  under none ks = f none
  under (some c) ks = observe c ks

  pub observe-cons :
      (n : Node) (k : Bytes) (ks : List Bytes) → observe n (k ∷ ks) ≡ under (get_child n k) ks
  unfolding observe
  observe-cons n k ks = rw (T.get_path-cons n k ks, observe) (ground arith)

  pub observe_empty : (ks : List Bytes) → observe (T.empty none) ks ≡ f none
  observe_empty [] = observe-nil _ ∙ ap f (T.value-empty none)
  observe_empty (k ∷ ks) = observe-cons _ k ks ∙ ap (λ o. under o ks) (get_child-empty T none k)

  pub observe-child_or_new :
      (n : Node) (k : Bytes) (ks : List Bytes)
      → observe (child_or_new T n k) ks ≡ observe n (k ∷ ks)
  unfolding child_or_new
  observe-child_or_new n k ks = rw (observe-cons n k ks) (ground (arith, observe_empty ks))

  pub observe-put_value :
      (n : Node) (d : Option (MetaNode Obj)) (j : Bytes) (js : List Bytes)
      → observe (put_value n d) (j ∷ js) ≡ observe n (j ∷ js)
  observe-put_value n d j js =
      observe-cons _ j js
      ∙ ap (λ o. under o js) (get_child-put_value T n d j)
      ∙ sym (observe-cons n j js)

  pub observe_absent :
      (n : Node) (k : Bytes) (ks : List Bytes) → get_child n k ≡ none → observe n (k ∷ ks) ≡ f none
  observe_absent n k ks e = observe-cons n k ks ∙ ap (λ o. under o ks) e

  pub observe_present :
      (n : Node) (k : Bytes) (ks : List Bytes) (c : Node)
      → get_child n k ≡ some c
      → observe n (k ∷ ks) ≡ observe c ks
  observe_present n k ks c e = observe-cons n k ks ∙ ap (λ o. under o ks) e

module _ {Obj A : Type 0} (T : MetaTree Obj) (live : ℕ → Bool) (f : Option (MetaNode Obj) → A)
    (st : IsStable T live f) where
  open T use {Node, value, children, get_child, put_child, put_value, erase}

  -- `n'` is `n` with its child at `k` replaced by `c`, as far as `f` shows.
  pub record Replaced (n n' : Node) (k : Bytes) (c : Node) : Type 0 where
    pub own : f (value n') ≡ f (value n)
    pub below :
        (j : Bytes) (js : List Bytes)
        → observe T f n' (j ∷ js)
          ≡ (if bytes_eq k j then observe T f c js else observe T f n (j ∷ js))

  -- `n'` is `n`, as far as `f` and the children show.
  pub record Pruned (n n' : Node) : Type 0 where
    pub own : f (value n') ≡ f (value n)
    pub child : (k : Bytes) → get_child n' k ≡ get_child n k

  pub Pruned-refl : (n : Node) → Pruned n n
  Pruned-refl n = record { own = refl; child = λ k. refl }

  pub Pruned-trans : {n p q : Node} → Pruned n p → Pruned p q → Pruned n q
  Pruned-trans a b = record { own = b.own ∙ a.own; child = λ k. b.child k ∙ a.child k }

  Pruned-update :
      (n : Node) (g : MetaNode Obj → MetaNode Obj)
      → ((m : MetaNode Obj) → f (some (g m)) ≡ f (some m))
      → Pruned n (update_meta T n g)
  unfolding update_meta
  Pruned-update n g h = elim (Option-cases (value n)) [
    | inl e ↦ rw (e, update_meta) (Pruned-refl n)
    | inr (m, e) ↦
        rw (e, update_meta)
          (record {
            own = ap f (T.value-put_value n (some (g m))) ∙ h m ∙ ap f (sym e);
            child = get_child-put_value T n (some (g m));
          })
  ]

  pub Pruned-prune_a : (n : Node) → Pruned n (prune_a T live n)
  unfolding prune_a
  Pruned-prune_a n = Pruned-update n _ st.on_prune_a

  pub Pruned-prune_i : (n : Node) → Pruned n (prune_i T live n)
  unfolding prune_i
  Pruned-prune_i n = Pruned-update n _ st.on_prune_i

  Pruned-observe :
      {n p : Node}
      → Pruned n p
      → (j : Bytes) (js : List Bytes) → observe T f p (j ∷ js) ≡ observe T f n (j ∷ js)
  Pruned-observe {n} {p} h j js =
      observe-cons T f p j js ∙ ap (λ o. under T f o js) (h.child j) ∙ sym (observe-cons T f n j js)

  pub Replaced-put_child :
      (n p : Node) (k : Bytes) (c : Node) → Pruned n p → Replaced n (put_child p k c) k c
  Replaced-put_child n p k c h = record {
    own = ap f (T.value-put_child p k c) ∙ h.own;
    below = λ j js. ground (
      arith,
      observe-cons T f (put_child p k c) j js,
      ap (λ o. under T f o js) (get_child-put_child T p k j c),
      observe-cons T f p j js,
      Pruned-observe h j js,
    );
  }

  assoc_get_nil : (j : Bytes) → assoc_get {A = Node} j [] ≡ none
  unfolding assoc_get
  assoc_get_nil j = refl

  -- A node with no children and nothing in it shows nothing.
  observe_trivial : (c : Node) (js : List Bytes) → is_trivial T c ≡ true → observe T f c js ≡ f none
  unfolding is_trivial
  observe_trivial c [] t = observe-nil T f c ∙ st.on_trivial (value c) (ground arith)
  observe_trivial c (j ∷ js) t =
      let e : children c ≡ [] = ground arith in
      observe-cons T f c j js
      ∙ ap (λ o. under T f o js) (T.get_child_lem c j ∙ ap (assoc_get j) e ∙ assoc_get_nil j)

  pub Replaced-erase :
      (n p : Node) (k : Bytes) (c : Node)
      → Pruned n p
      → is_trivial T c ≡ true
      → Replaced n (erase p k) k c
  Replaced-erase n p k c h t = record {
    own = ap f (T.value-erase p k) ∙ h.own;
    below = λ j js. ground (
      arith,
      observe-cons T f (erase p k) j js,
      ap (λ o. under T f o js) (get_child-erase T p k j),
      observe-cons T f p j js,
      Pruned-observe h j js,
      observe_trivial c js t,
    );
  }

  -- What the replaced child still shows, the node still shows.
  pub Replaced-keep :
      {n n' : Node} {k : Bytes} {c : Node}
      → Replaced n n' k c
      → (js : List Bytes)
      → ((js' : List Bytes) → js ≡ k ∷ js' → observe T f c js' ≡ observe T f n (k ∷ js'))
      → observe T f n' js ≡ observe T f n js
  Replaced-keep {n} {n'} h [] ih = observe-nil T f n' ∙ h.own ∙ sym (observe-nil T f n)
  Replaced-keep {n} {n'} {k} {c} h (j ∷ js) ih = elim (Bool-cases (bytes_eq k j)) [
    | inl e ↦
        let same : j ≡ k = sym ((bytes_eq_iff k j).0 e) in
        ground (
          arith,
          h.below j js,
          ih js (ap (λ t. t ∷ js) same),
          ap (λ t. observe T f n (t ∷ js)) same,
        )
    | inr e ↦ ground (arith, h.below j js)
  ]

  pub Replaced-at :
      {n n' : Node} {k : Bytes} {c : Node}
      → Replaced n n' k c
      → (js : List Bytes) → observe T f n' (k ∷ js) ≡ observe T f c js
  Replaced-at {k} h js = ground (arith, h.below k js, bytes_eq_refl k)

  pub Pruned-same :
      {n p : Node} → Pruned n p → (js : List Bytes) → observe T f p js ≡ observe T f n js
  Pruned-same {n} {p} h [] = observe-nil T f p ∙ h.own ∙ sym (observe-nil T f n)
  Pruned-same h (j ∷ js) = Pruned-observe h j js
