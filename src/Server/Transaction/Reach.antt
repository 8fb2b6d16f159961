-- ===== src/Server/Transaction/Reach.antt =====
-- Which sessions an element of a transaction of src/ObexServer.cpp reaches.
use objxp.Common.{
  ℕ, ◌≡◌, refl, sym, ap, ◌∙◌, inl, inr, subst, Bool, true, false, List, [], ◌∷◌, ◌++◌, map, Option,
  some, arith, Bytes, In, ◌==◌, Bool-cases,
}
use objxp.Path.{valid_obj_path, convert_to_dot_path}
use objxp.Path.Convert.{tokens}
use objxp.Tree.{MetaTree, Notification, updated, deleted, mem, get_object, put_object, del_object}
use objxp.Tree.Notify.{registered_from}
use objxp.Tree.Observe.{observe}
use objxp.Tree.Registered.{live_callbacks}
use objxp.Tree.Receivers.{registered_from-same}
use objxp.Tree.Told.{put_object-notifies, del_object-notifies}
use objxp.Server.{Change, change_put, change_del}
use objxp.Server.Open.{changes_for}
use objxp.Server.Transaction.{Element, element_put, element_del, told_of}
use objxp.Server.Transaction.Told.{told_of-updated, told_of-deleted}
use objxp.Server.Transaction.Once.{element_path, element_change}

module _ {Obj : Type 0} where
  mem-changes_for :
      (j : ℕ) (ch : Change Obj) (cbs : List ℕ)
      → mem j cbs ≡ true
      → In ch (changes_for j (map (λ c. (c, ch)) cbs))
  unfolding mem changes_for
  mem-changes_for j ch [] h = cc
  mem-changes_for j ch (c ∷ cbs) h = elim (Bool-cases (j == c)) [
    | inl e ↦ rw e (inl refl)
    | inr e ↦ rw e (mem-changes_for j ch cbs (ground (arith, e)))
  ]

  pub changes_for-In_first :
      (j : ℕ) (ch : Change Obj) (xs ys : List (ℕ × Change Obj))
      → In ch (changes_for j xs)
      → In ch (changes_for j (xs ++ ys))
  unfolding changes_for
  changes_for-In_first j ch [] ys h = absurd h
  changes_for-In_first j ch ((i, c) ∷ xs) ys h = elim (Bool-cases (j == i)) [
    | inl e ↦
        let h' : In ch (c ∷ changes_for j xs) = rw e at h in
        rw e (elim h' [ inl q ↦ inl q | inr k ↦ inr (changes_for-In_first j ch xs ys k) ])
    | inr e ↦
        let h' : In ch (changes_for j xs) = rw e at h in rw e (changes_for-In_first j ch xs ys h')
  ]

  pub changes_for-In_later :
      (j : ℕ) (ch : Change Obj) (xs ys : List (ℕ × Change Obj))
      → In ch (changes_for j ys)
      → In ch (changes_for j (xs ++ ys))
  unfolding changes_for
  changes_for-In_later j ch [] ys h = h
  changes_for-In_later j ch ((i, c) ∷ xs) ys h = elim (Bool-cases (j == i)) [
    | inl e ↦ rw e (inr (changes_for-In_later j ch xs ys h))
    | inr e ↦ rw e (changes_for-In_later j ch xs ys h)
  ]

module _ {Obj : Type 0} (T : MetaTree Obj) (live : ℕ → Bool) (equals : Obj → Obj → Option Bool)
    (name : Bytes) where
  open T use {Node}

  -- An element that changes the tree: an object where none or another one is, or the removal of one.
  abbrev pub Differs : Node → Element Obj → Type 0
  Differs root (element_put p o opt) =
      (old : Obj) → get_object T root p ≡ some (some old) → equals old o ≡ some false
  Differs root (element_del p) = (old : Obj) × (get_object T root p ≡ some (some old))

  pub put_object-reaches :
      (root root' : Node) (p d : Bytes) (o : Obj) (opt : Bytes) (notes : List (Notification Obj))
      (j : ℕ)
      → valid_obj_path p ≡ some true
      → convert_to_dot_path p ≡ some d
      → put_object T live equals name root p o ≡ some (root', notes)
      → Differs root (element_put p o opt)
      → live j ≡ true
      → registered_from T live [] root (tokens d) j ≡ true
      → In (change_put p o) (changes_for j (map told_of notes))
  put_object-reaches root root' p d o opt notes j hp hd run differs alive registered =
      let (r, before, cbs, _, run', _, told) =
        put_object-notifies T live equals name root p d o hp hd differs in
      let same : map (λ c. updated c name p o before) cbs ≡ notes = cc (run, run') in
      let tells : map told_of notes ≡ map (λ c. (c, change_put p o)) cbs =
        ap (map told_of) (sym same) ∙ told_of-updated name p o before cbs in
      let member : mem j cbs ≡ true = told j ∙ rw (alive, registered) refl in
      subst (λ l. In (change_put p o) (changes_for j l)) (sym tells)
        (mem-changes_for j (change_put p o) cbs member)

  pub del_object-reaches :
      (root root' : Node) (p d : Bytes) (notes : List (Notification Obj)) (j : ℕ)
      → valid_obj_path p ≡ some true
      → convert_to_dot_path p ≡ some d
      → del_object T live name root p ≡ some (root', notes)
      → Differs root (element_del p)
      → live j ≡ true
      → registered_from T live [] root (tokens d) j ≡ true
      → In (change_del p) (changes_for j (map told_of notes))
  del_object-reaches root root' p d notes j hp hd run (old, there) alive registered =
      let (r, cbs, run', _, told) = del_object-notifies T live name root p d old hp hd there in
      let same : map (λ c. deleted c name p old) cbs ≡ notes = cc (run, run') in
      let tells : map told_of notes ≡ map (λ c. (c, change_del p)) cbs =
        ap (map told_of) (sym same) ∙ told_of-deleted name p old cbs in
      let member : mem j cbs ≡ true = told j ∙ rw (alive, registered) refl in
      subst (λ l. In (change_del p) (changes_for j l)) (sym tells)
        (mem-changes_for j (change_del p) cbs member)

  -- A living session that is registered for the element's path is told, if the element changes the
  -- tree.
  abbrev pub Reaches : Node → List (ℕ × Change Obj) → Element Obj → Type 0
  Reaches root cs e =
      (d : Bytes) (j : ℕ)
      → convert_to_dot_path (element_path e) ≡ some d
      → Differs root e
      → live j ≡ true
      → registered_from T live [] root (tokens d) j ≡ true
      → In (element_change e) (changes_for j cs)

  Differs-same :
      (root root' : Node) (e : Element Obj)
      → get_object T root' (element_path e) ≡ get_object T root (element_path e)
      → Differs root e
      → Differs root' e
  Differs-same root root' (element_put p o opt) s h = λ old k. h old (sym s ∙ k)
  Differs-same root root' (element_del p) s (old, h) = (old, s ∙ h)

  -- What is told later of a tree that reads the same at the path and has the same live callbacks.
  pub Reaches-later :
      (root root' : Node) (mine cs : List (ℕ × Change Obj)) (e : Element Obj)
      → get_object T root' (element_path e) ≡ get_object T root (element_path e)
      → ((ks : List Bytes)
          → observe T (live_callbacks T live) root' ks ≡ observe T (live_callbacks T live) root ks)
      → Reaches root' cs e
      → Reaches root (mine ++ cs) e
  Reaches-later root root' mine cs e same keeps h d j hd differs alive registered =
      changes_for-In_later j (element_change e) mine cs (
        h d j hd (Differs-same root root' e same differs) alive
          (registered_from-same T live root root' j alive keeps (tokens d) ∙ registered))
