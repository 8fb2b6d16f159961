-- ===== src/Tree/Notify.antt =====
-- Who is told of a change: the callbacks that putObject and delObject of src/ObexTree.cpp call.
use mathlib.Core.Path.{fun_ext}
use mathlib.Core.Option.{some-injective}
use objxp.Common.{
  ℕ, ◌≡◌, refl, sym, ap, subst, ◌∙◌, inl, inr, Bool, true, false, ◌&&◌, ◌||◌, List, [], ◌∷◌, ◌++◌,
  Option, none, some, arith, Bytes, is_empty, ◌==◌, if◌then◌else◌, >>=-eq-some, Option-cases,
}
use objxp.Tree.{
  MetaNode, MetaTree, mem, set_insert, add_to_callback_set, child_or_new, i_cbs_of, a_cbs_of,
  c_cbs_of, PutOutcome, written, put_walk, DelOutcome, absent, removed, clean_up, del_walk,
}
use objxp.Tree.Observe.{observe, observe-nil, observe-child_or_new, observe_present}
use objxp.Tree.PutWalk.{put_here_cases, put_back-outcome}
use objxp.Tree.DelWalk.{del_here_cases}

abbrev pub Distinct : List ℕ → Type 0
Distinct [] = Unit
Distinct (c ∷ l) = (mem c l ≡ false) × Distinct l

pub mem-append : (c : ℕ) (l m : List ℕ) → mem c (l ++ m) ≡ (mem c l || mem c m)
unfolding mem
mem-append c [] m = refl
mem-append c (d ∷ l) m = ground (arith, mem-append c l m)

pub mem-set_insert : (c d : ℕ) (l : List ℕ) → mem c (set_insert d l) ≡ (mem c l || (d == c))
unfolding set_insert mem
mem-set_insert c d l = ground (arith, mem-append c l (d ∷ []))

Distinct-append : (l : List ℕ) (d : ℕ) → Distinct l → mem d l ≡ false → Distinct (l ++ (d ∷ []))
unfolding mem
Distinct-append [] d h m = (refl, tt)
Distinct-append (c ∷ l) d h m =
    (ground (arith, mem-append c l (d ∷ [])), Distinct-append l d h.1 (ground arith))

Distinct-set_insert : (d : ℕ) (l : List ℕ) → Distinct l → Distinct (set_insert d l)
unfolding set_insert
Distinct-set_insert d l h = ground (arith, Distinct-append l d h)

module _ (live : ℕ → Bool) where
  pub mem-add_to_callback_set :
      (c : ℕ) (set m : List ℕ)
      → mem c (add_to_callback_set live set m) ≡ (mem c set || (mem c m && live c))
  unfolding add_to_callback_set mem
  mem-add_to_callback_set c set [] = ground arith
  mem-add_to_callback_set c set (d ∷ m) = ground (
    arith,
    mem-add_to_callback_set c (if live d then set_insert d set else set) m,
    mem-set_insert c d set,
  )

  pub Distinct-add_to_callback_set :
      (set m : List ℕ) → Distinct set → Distinct (add_to_callback_set live set m)
  unfolding add_to_callback_set
  Distinct-add_to_callback_set set [] h = h
  Distinct-add_to_callback_set set (d ∷ m) h =
      Distinct-add_to_callback_set (if live d then set_insert d set else set) m
        (ground (arith, Distinct-set_insert d set h))

-- For `g`, the callbacks registered at each path: whether one at a proper prefix of a path is `c`.
abbrev pub above : (List Bytes → List ℕ) → List Bytes → ℕ → Bool
above g [] c = false
above g (k ∷ ks) c = mem c (g []) || above (λ js. g (k ∷ js)) ks c

-- Whether one at the path without its last element is `c`. `first` stands for the empty path.
abbrev pub at_parent : List ℕ → (List Bytes → List ℕ) → List Bytes → ℕ → Bool
at_parent first g [] c = mem c first
at_parent first g (k ∷ ks) c = at_parent (g []) (λ js. g (k ∷ js)) ks c

module _ {Obj : Type 0} (T : MetaTree Obj) (live : ℕ → Bool) where
  open T use {Node, value, get_child}

  -- The callbacks that are registered for a path: for all descendants above it, for the children
  -- of its parent, or for the node itself.
  abbrev pub registered_from : List ℕ → Node → List Bytes → ℕ → Bool
  registered_from first n ks c =
      above (observe T (a_cbs_of T) n) ks c
      || at_parent first (observe T (i_cbs_of T) n) ks c
      || mem c (observe T (c_cbs_of T) n ks)

  here_callbacks :
      (first set : List ℕ) (n : Node) (c : ℕ)
      → mem c (add_to_callback_set live (add_to_callback_set live set first) (c_cbs_of T (value n)))
        ≡ (mem c set || (live c && registered_from first n [] c))
  here_callbacks first set n c = ground (
    arith,
    mem-add_to_callback_set live c (add_to_callback_set live set first) (c_cbs_of T (value n)),
    mem-add_to_callback_set live c set first,
    ap (mem c) (observe-nil T (c_cbs_of T) n),
  )

  -- One step down: `m` is the child at `k`, as far as its callbacks show.
  step_callbacks :
      (set : List ℕ) (n m : Node) (k : Bytes) (ks : List Bytes) (first : List ℕ) (c : ℕ)
      → ((f : Option (MetaNode Obj) → List ℕ)
          → f none ≡ []
          → (js : List Bytes) → observe T f m js ≡ observe T f n (k ∷ js))
      → (mem c (add_to_callback_set live set (a_cbs_of T (value n)))
          || (live c && registered_from (i_cbs_of T (value n)) m ks c))
        ≡ (mem c set || (live c && registered_from first n (k ∷ ks) c))
  step_callbacks set n m k ks first c same =
      rw
        (
          fun_ext (same (a_cbs_of T) refl),
          fun_ext (same (i_cbs_of T) refl),
          fun_ext (same (c_cbs_of T) refl),
          observe-nil T (a_cbs_of T) n,
          observe-nil T (i_cbs_of T) n,
          mem-add_to_callback_set live c set (a_cbs_of T (value n)),
        )
        (ground arith)

  module _ (equals : Obj → Obj → Option Bool) (o : Obj) where
    -- The set that the walk of putObject collects.
    pub put_walk-callbacks :
        (first : List ℕ) (n : Node) (ks : List Bytes) (set : List ℕ) (r : Node × PutOutcome Obj)
        → put_walk T live equals o first n ks set ≡ some r
        → (old : Option Obj) (cbs : List ℕ) → r.1 ≡ written old cbs
        → Distinct set
        → Distinct cbs
          × ((c : ℕ) → mem c cbs ≡ (mem c set || (live c && registered_from first n ks c)))
    unfolding put_walk
    put_walk-callbacks first n [] set r h old cbs w dist =
        elim (put_here_cases T live equals o first set n r h) [
          | inl s ↦ absurd (cc (ap (λ (t : Node × PutOutcome Obj). t.1) s.same))
          | inr u ↦
              let e : cbs
                  ≡ add_to_callback_set live (add_to_callback_set live set first)
                      (c_cbs_of T (value n)) =
                cc (u.outcome) in
              (
                subst Distinct (sym e) (
                    Distinct-add_to_callback_set live _ _
                      (Distinct-add_to_callback_set live set first dist)),
                λ c. ap (mem c) e ∙ here_callbacks first set n c,
              )
        ]
    put_walk-callbacks first n (k ∷ ks) set r h old cbs w dist =
        let (c, e, e') = >>=-eq-some (put_walk T live equals o _ (child_or_new T n k) ks _) _ h in
        let out : c.1 ≡ written old cbs =
          sym (put_back-outcome T live _ k (is_empty ks) c)
          ∙ ap (λ (t : Node × PutOutcome Obj). t.1) (some-injective _ _ e')
          ∙ w in
        let ih =
          put_walk-callbacks (i_cbs_of T (value n)) (child_or_new T n k) ks
            (add_to_callback_set live set (a_cbs_of T (value n))) c e old cbs out
            (Distinct-add_to_callback_set live set _ dist) in
        (
          ih.0,
          λ x.
              ih.1 x
              ∙ step_callbacks set n (child_or_new T n k) k ks first x
                  (λ f z js. observe-child_or_new T f n k js),
        )

  clean_up-outcome :
      (n : Node) (k : Bytes) (b : Bool) (m : Node) (out : DelOutcome Obj) (old : Obj) (cbs : List ℕ)
      (cl : Bool)
      → (clean_up T live n k b m out).1 ≡ removed old cbs cl
      → (cl' : Bool) × (out ≡ removed old cbs cl')
  unfolding clean_up
  clean_up-outcome n k b m absent old cbs cl h = cc
  clean_up-outcome n k b m (removed old' cbs' true) old cbs cl h = (true, ground arith)
  clean_up-outcome n k b m (removed old' cbs' false) old cbs cl h = (false, ground arith)

  -- The set that the walk of delObject collects.
  pub del_walk-callbacks :
      (first : List ℕ) (n : Node) (ks : List Bytes) (set : List ℕ) (old : Obj) (cbs : List ℕ)
      (cl : Bool)
      → (del_walk T live first n ks set).1 ≡ removed old cbs cl
      → Distinct set
      → Distinct cbs
        × ((c : ℕ) → mem c cbs ≡ (mem c set || (live c && registered_from first n ks c)))
  unfolding del_walk
  del_walk-callbacks first n [] set old cbs cl h dist = elim (del_here_cases T live first set n) [
    | inl (_, s) ↦ absurd (cc (ap (λ (t : Node × DelOutcome Obj). t.1) s))
    | inr u ↦
        let e : cbs
            ≡ add_to_callback_set live (add_to_callback_set live set first) (c_cbs_of T (value n)) =
          cc (u.outcome) in
        (
          subst Distinct (sym e) (
              Distinct-add_to_callback_set live _ _
                (Distinct-add_to_callback_set live set first dist)),
          λ c. ap (mem c) e ∙ here_callbacks first set n c,
        )
  ]
  del_walk-callbacks first n (k ∷ ks) set old cbs cl h dist = elim (Option-cases (get_child n k)) [
    | inl e ↦ absurd (cc (rw (e, del_walk) at h))
    | inr (m, e) ↦
        let (cl', out) =
          clean_up-outcome _ k (is_empty ks) _ _ old cbs cl (rw (e, del_walk) at h) in
        let ih =
          del_walk-callbacks (i_cbs_of T (value n)) m ks
            (add_to_callback_set live set (a_cbs_of T (value n))) old cbs cl' out
            (Distinct-add_to_callback_set live set _ dist) in
        (
          ih.0,
          λ x.
              ih.1 x
              ∙ step_callbacks set n m k ks first x
                  (λ f z js. sym (observe_present T f n k js m e)),
        )
  ]
