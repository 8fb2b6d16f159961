-- ===== src/Server/Transaction/Told.antt =====
-- Whom one element of a transaction of src/ObexServer.cpp tells: each session at most once.
use objxp.Common.{
  ℕ, ◌≡◌, refl, sym, ap, ◌∙◌, subst, Bool, true, List, [], ◌∷◌, map, Option, none, some, Bytes,
  ◌>>=◌,
}
use objxp.Path.{valid_obj_path}
use objxp.Path.Convert.{tokens, convert_to_slash_path-convert_to_dot_path}
use objxp.Tree.{
  MetaTree, Notification, updated, deleted, put_object, del_object, put_walk, del_walk, PutOutcome,
  identical, written, DelOutcome, absent, removed, updates, deletions,
}
use objxp.Tree.Notify.{Distinct, put_walk-callbacks, del_walk-callbacks}
use objxp.Server.{Change, change_put, change_del}
use objxp.Server.Transaction.{told_of}

-- The notifications tell different sessions of one change.
abbrev pub TellsOnce : {Obj : Type 0} → Change Obj → List (Notification Obj) → Type 0
TellsOnce ch notes = (cbs : List ℕ) × Distinct cbs × (map told_of notes ≡ map (λ c. (c, ch)) cbs)

pub told_of-updated :
    {Obj : Type 0} (name p : Bytes) (o : Obj) (before : Option Obj) (cbs : List ℕ)
    → map told_of (map (λ c. updated c name p o before) cbs) ≡ map (λ c. (c, change_put p o)) cbs
told_of-updated name p o before [] = refl
told_of-updated name p o before (c ∷ cbs) =
    ap (λ l. (c, change_put p o) ∷ l) (told_of-updated name p o before cbs)

pub told_of-deleted :
    {Obj : Type 0} (name p : Bytes) (old : Obj) (cbs : List ℕ)
    → map told_of (map (λ c. deleted c name p old) cbs) ≡ map (λ c. (c, change_del p)) cbs
told_of-deleted name p old [] = refl
told_of-deleted name p old (c ∷ cbs) =
    ap (λ l. (c, change_del p) ∷ l) (told_of-deleted name p old cbs)

module _ {Obj : Type 0} (T : MetaTree Obj) (live : ℕ → Bool) (name : Bytes) where
  open T use {Node}

  deletions-TellsOnce :
      (root : Node) (p d : Bytes) (x : DelOutcome Obj)
      → (del_walk T live [] root (tokens d) []).1 ≡ x
      → TellsOnce (change_del p) (deletions T live name p x)
  deletions-TellsOnce root p d absent e = ([], tt, refl)
  deletions-TellsOnce root p d (removed old cbs cl) e =
      let told = del_walk-callbacks T live [] root (tokens d) [] old cbs cl e tt in
      (cbs, told.0, told_of-deleted name p old cbs)

  pub del_object-TellsOnce :
      (root root' : Node) (p : Bytes) (notes : List (Notification Obj))
      → valid_obj_path p ≡ some true
      → del_object T live name root p ≡ some (root', notes)
      → TellsOnce (change_del p) notes
  del_object-TellsOnce root root' p notes hp h =
      let (d, hd, _) = convert_to_slash_path-convert_to_dot_path p hp in
      let r = del_walk T live [] root (tokens d) [] in
      let run : del_object T live name root p ≡ some (r.0, deletions T live name p r.1) =
        (unfold del_object in rw (hp, hd) refl) in
      let same : deletions T live name p r.1 ≡ notes = cc (run, h) in
      subst (TellsOnce (change_del p)) same (deletions-TellsOnce root p d r.1 refl)

  module _ (equals : Obj → Obj → Option Bool) where
    updates-TellsOnce :
        (root : Node) (p d : Bytes) (o : Obj) (r : Node × PutOutcome Obj)
        → put_walk T live equals o [] root (tokens d) [] ≡ some r
        → (x : PutOutcome Obj) → r.1 ≡ x
        → TellsOnce (change_put p o) (updates T live name p o x)
    updates-TellsOnce root p d o r h identical e = ([], tt, refl)
    updates-TellsOnce root p d o r h (written before cbs) e =
        let told = put_walk-callbacks T live equals o [] root (tokens d) [] r h before cbs e tt in
        (cbs, told.0, told_of-updated name p o before cbs)

    abbrev put_result : Bytes → Obj → Node × PutOutcome Obj → Node × List (Notification Obj)
    put_result p o r = (r.0, updates T live name p o r.1)

    pub put_object-TellsOnce :
        (root root' : Node) (p : Bytes) (o : Obj) (notes : List (Notification Obj))
        → valid_obj_path p ≡ some true
        → put_object T live equals name root p o ≡ some (root', notes)
        → TellsOnce (change_put p o) notes
    put_object-TellsOnce root root' p o notes hp h =
        let (d, hd, _) = convert_to_slash_path-convert_to_dot_path p hp in
        let run : put_object T live equals name root p o
            ≡ (put_walk T live equals o [] root (tokens d) [] >>= λ r. some (put_result p o r)) =
          (unfold put_object in rw (hp, hd) refl) in
        walked d (put_walk T live equals o [] root (tokens d) []) refl (sym run ∙ h)
      where
        walked :
            (d : Bytes) (w : Option (Node × PutOutcome Obj))
            → put_walk T live equals o [] root (tokens d) [] ≡ w
            → (w >>= λ r. some (put_result p o r)) ≡ some (root', notes)
            → TellsOnce (change_put p o) notes
        walked d none e k = cc
        walked d (some r) e k =
            let same : updates T live name p o r.1 ≡ notes = cc k in
            subst (TellsOnce (change_put p o)) same (updates-TellsOnce root p d o r e r.1 refl)
