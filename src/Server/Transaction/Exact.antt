-- ===== src/Server/Transaction/Exact.antt =====
-- Exactly whom one element of a transaction of src/ObexServer.cpp tells.
use objxp.Common.{
  ℕ, ◌≡◌, ◌≢◌, refl, sym, ap, ◌∙◌, inl, inr, Bool, true, false, not, ◌&&◌, List, [], ◌∷◌, ◌++◌, map,
  Option, none, some, arith, Bytes, ◌==◌, Bool-cases, Option-cases, All,
}
use objxp.Path.{valid_obj_path, convert_to_dot_path}
use objxp.Path.Convert.{tokens, convert_to_slash_path-convert_to_dot_path}
use objxp.Tree.{
  MetaTree, Notification, updated, deleted, mem, obj_of, get_object, put_object, del_object,
}
use objxp.Tree.Notify.{Distinct, registered_from}
use objxp.Tree.Observe.{observe}
use objxp.Tree.Objects.{get_object_lem}
use objxp.Tree.Registered.{live_callbacks}
use objxp.Tree.Receivers.{registered_from-same}
use objxp.Tree.Told.{put_object-notifies, del_object-notifies}
use objxp.Tree.Unchanged.{put_object-equal, del_object-no_object}
use objxp.Server.{Change, change_put, change_del}
use objxp.Server.Open.{changes_for}
use objxp.Server.Transaction.{Element, element_put, element_del, told_of}
use objxp.Server.Transaction.Told.{told_of-updated, told_of-deleted}
use objxp.Server.Transaction.Once.{element_path, element_change}

-- A change, if a test holds.
abbrev pub change_if : {Obj : Type 0} → Bool → Change Obj → List (Change Obj)
change_if true ch = ch ∷ []
change_if false ch = []

module _ {Obj : Type 0} where
  not_told :
      (j : ℕ) (ch : Change Obj) (cbs : List ℕ)
      → mem j cbs ≡ false
      → changes_for j (map (λ c. (c, ch)) cbs) ≡ []
  unfolding mem changes_for
  not_told j ch [] h = refl
  not_told j ch (c ∷ cbs) h =
      let other : (j == c) ≡ false = ground (arith, h) in
      rw other (not_told j ch cbs (ground (arith, h)))

  -- A session among different ones is told once, and another one is not.
  changes_for-told :
      (j : ℕ) (ch : Change Obj) (cbs : List ℕ)
      → Distinct cbs
      → changes_for j (map (λ c. (c, ch)) cbs) ≡ change_if (mem j cbs) ch
  unfolding mem changes_for
  changes_for-told j ch [] d = refl
  changes_for-told j ch (c ∷ cbs) (d, ds) = elim (Bool-cases (j == c)) [
    | inl e ↦
        let same : j ≡ c = ground (arith, e) in
        let flip : (c == j) ≡ true = ground (arith, e) in
        rw (e, flip) (ap (λ l. ch ∷ l) (not_told j ch cbs (ap (λ (k : ℕ). mem k cbs) same ∙ d)))
    | inr e ↦
        let flip : (c == j) ≡ false = ground (arith, e) in
        rw (e, flip) (changes_for-told j ch cbs ds)
  ]

  pub changes_for-append :
      (j : ℕ) (xs ys : List (ℕ × Change Obj))
      → changes_for j (xs ++ ys) ≡ changes_for j xs ++ changes_for j ys
  unfolding changes_for
  changes_for-append j [] ys = refl
  changes_for-append j ((i, c) ∷ xs) ys = elim (Bool-cases (j == i)) [
    | inl e ↦ rw (e, changes_for-append j xs ys) refl
    | inr e ↦ rw (e, changes_for-append j xs ys) refl
  ]

module _ {Obj : Type 0} (T : MetaTree Obj) (live : ℕ → Bool) (equals : Obj → Obj → Option Bool)
    (name : Bytes) where
  open T use {Node}

  -- A put changes what a path reads, unless an equal object is there.
  abbrev pub put_changes : Obj → Option (Option Obj) → Bool
  put_changes o none = false
  put_changes o (some none) = true
  put_changes o (some (some old)) = elim (equals old o) [ none ↦ false | some same ↦ not same ]

  abbrev pub del_changes : Option (Option Obj) → Bool
  del_changes none = false
  del_changes (some none) = false
  del_changes (some (some old)) = true

  abbrev pub changes_tree : Node → Element Obj → Bool
  changes_tree root (element_put p o opt) = put_changes o (get_object T root p)
  changes_tree root (element_del p) = del_changes (get_object T root p)

  abbrev pub registered_at : Node → Option Bytes → ℕ → Bool
  registered_at root none j = false
  registered_at root (some d) j = registered_from T live [] root (tokens d) j

  -- The change of an element, if the element changes the tree and the session is registered for
  -- its path.
  abbrev pub expected_of : Node → ℕ → Element Obj → List (Change Obj)
  expected_of root j e =
      change_if (changes_tree root e && registered_at root (convert_to_dot_path (element_path e)) j)
        (element_change e)

  -- The changes that a session should be told of, in the order of the elements.
  unfoldable pub expected : Node → ℕ → List (Element Obj) → List (Change Obj)
  expected root j [] = []
  expected root j (e ∷ es) = expected_of root j e ++ expected root j es

  -- What one element tells a session.
  abbrev pub Exact : Node → ℕ → List (Notification Obj) → Element Obj → Type 0
  Exact root j notes e = changes_for j (map told_of notes) ≡ expected_of root j e

  put_told :
      (root root' : Node) (p d : Bytes) (o : Obj) (notes : List (Notification Obj)) (j : ℕ)
      → valid_obj_path p ≡ some true
      → convert_to_dot_path p ≡ some d
      → put_object T live equals name root p o ≡ some (root', notes)
      → ((old : Obj) → get_object T root p ≡ some (some old) → equals old o ≡ some false)
      → live j ≡ true
      → changes_for j (map told_of notes)
        ≡ change_if (registered_from T live [] root (tokens d) j) (change_put p o)
  put_told root root' p d o notes j hp hd run differs alive =
      let (r, before, cbs, _, run', dist, told) =
        put_object-notifies T live equals name root p d o hp hd differs in
      let same : map (λ c. updated c name p o before) cbs ≡ notes = cc (run, run') in
      ap (λ l. changes_for j (map told_of l)) (sym same)
      ∙ ap (changes_for j) (told_of-updated name p o before cbs)
      ∙ changes_for-told j (change_put p o) cbs dist
      ∙ ap (λ b. change_if b (change_put p o)) (told j ∙ rw alive refl)

  del_told :
      (root root' : Node) (p d : Bytes) (old : Obj) (notes : List (Notification Obj)) (j : ℕ)
      → valid_obj_path p ≡ some true
      → convert_to_dot_path p ≡ some d
      → del_object T live name root p ≡ some (root', notes)
      → get_object T root p ≡ some (some old)
      → live j ≡ true
      → changes_for j (map told_of notes)
        ≡ change_if (registered_from T live [] root (tokens d) j) (change_del p)
  del_told root root' p d old notes j hp hd run there alive =
      let (r, cbs, run', dist, told) = del_object-notifies T live name root p d old hp hd there in
      let same : map (λ c. deleted c name p old) cbs ≡ notes = cc (run, run') in
      ap (λ l. changes_for j (map told_of l)) (sym same)
      ∙ ap (changes_for j) (told_of-deleted name p old cbs)
      ∙ changes_for-told j (change_del p) cbs dist
      ∙ ap (λ b. change_if b (change_del p)) (told j ∙ rw alive refl)

  told_nothing :
      (j : ℕ) (notes : List (Notification Obj))
      → notes ≡ []
      → changes_for j (map told_of notes) ≡ []
  told_nothing j notes e = ap (λ l. changes_for j (map told_of l)) e ∙ (unfold changes_for in refl)

  pub put_object-Exact :
      ((x y : Obj) → (b : Bool) × (equals x y ≡ some b))
      → (root root' : Node) (p : Bytes) (o : Obj) (opt : Bytes) (notes : List (Notification Obj))
        (j : ℕ)
      → valid_obj_path p ≡ some true
      → put_object T live equals name root p o ≡ some (root', notes)
      → live j ≡ true
      → Exact root j notes (element_put p o opt)
  put_object-Exact total root root' p o opt notes j hp run alive =
      let (d, hd, _) = convert_to_slash_path-convert_to_dot_path p hp in
      let look = get_object_lem T live root p d hp hd in
      elim (Option-cases (observe T (obj_of T) root (tokens d))) [
        | inl e ↦
            let reads : get_object T root p ≡ some none = look ∙ ap (λ t. some t) e in
            rw (reads, hd)
              (put_told root root' p d o notes j hp hd run (λ old u. absurd (cc (u, reads))) alive)
        | inr (old, e) ↦
            let reads : get_object T root p ≡ some (some old) = look ∙ ap (λ t. some t) e in
            elim (Bool-cases (total old o).0) [
              | inl q ↦
                  let equal : equals old o ≡ some true = (total old o).1 ∙ ap (λ b. some b) q in
                  rw (reads, put_changes, equal)
                    (told_nothing j notes (
                      put_object-equal T live equals name root root' p d o old notes hp hd e equal
                        run))
              | inr q ↦
                  let differs : equals old o ≡ some false = (total old o).1 ∙ ap (λ b. some b) q in
                  rw (reads, put_changes, differs, hd)
                    (put_told root root' p d o notes j hp hd run (λ x u. cc (u, reads, differs))
                      alive)
            ]
      ]

  pub del_object-Exact :
      (root root' : Node) (p : Bytes) (notes : List (Notification Obj)) (j : ℕ)
      → valid_obj_path p ≡ some true
      → del_object T live name root p ≡ some (root', notes)
      → live j ≡ true
      → Exact root j notes (element_del p)
  del_object-Exact root root' p notes j hp run alive =
      let (d, hd, _) = convert_to_slash_path-convert_to_dot_path p hp in
      let look = get_object_lem T live root p d hp hd in
      elim (Option-cases (observe T (obj_of T) root (tokens d))) [
        | inl e ↦
            let reads : get_object T root p ≡ some none = look ∙ ap (λ t. some t) e in
            rw reads (
              told_nothing j notes
                (del_object-no_object T live name root root' p d notes hp hd e run))
        | inr (old, e) ↦
            let reads : get_object T root p ≡ some (some old) = look ∙ ap (λ t. some t) e in
            rw (reads, hd) (del_told root root' p d old notes j hp hd run reads alive)
      ]

  changes_tree-same :
      (root root' : Node) (e : Element Obj)
      → get_object T root' (element_path e) ≡ get_object T root (element_path e)
      → changes_tree root' e ≡ changes_tree root e
  changes_tree-same root root' (element_put p o opt) h = ap (put_changes o) h
  changes_tree-same root root' (element_del p) h = ap del_changes h

  registered_at-same :
      (root root' : Node) (d : Option Bytes) (j : ℕ)
      → live j ≡ true
      → ((ks : List Bytes)
          → observe T (live_callbacks T live) root' ks ≡ observe T (live_callbacks T live) root ks)
      → registered_at root' d j ≡ registered_at root d j
  registered_at-same root root' none j alive keeps = refl
  registered_at-same root root' (some d) j alive keeps =
      registered_from-same T live root root' j alive keeps (tokens d)

  -- What is expected of elements at other paths than the one that changed.
  pub expected-later :
      (root root' : Node) (path : Bytes) (j : ℕ) (es : List (Element Obj))
      → live j ≡ true
      → ((q : Bytes)
          → valid_obj_path q ≡ some true
          → q ≢ path
          → get_object T root' q ≡ get_object T root q)
      → ((ks : List Bytes)
          → observe T (live_callbacks T live) root' ks ≡ observe T (live_callbacks T live) root ks)
      → All (λ e. valid_obj_path (element_path e) ≡ some true) es
      → All (λ e. element_path e ≢ path) es
      → expected root' j es ≡ expected root j es
  unfolding expected
  expected-later root root' path j [] alive rest keeps v ne = refl
  expected-later root root' path j (e ∷ es) alive rest keeps (v, vs) (ne, nes) =
      rw
        (
          changes_tree-same root root' e (rest (element_path e) v ne),
          registered_at-same root root' (convert_to_dot_path (element_path e)) j alive keeps,
          expected-later root root' path j es alive rest keeps vs nes,
        )
        refl
