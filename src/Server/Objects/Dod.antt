-- ===== src/Server/Objects/Dod.antt =====
-- Deletion on disconnect by ObexServerSession of src/ObexServer.cpp: from putObject to the end of
-- the session.
use objxp.Common.{
  ℕ, ◌≡◌, refl, sym, ap, ◌∙◌, subst, Bool, true, false, ◌&&◌, ◌||◌, List, [], ◌∷◌, ◌++◌, Option,
  none, some, Bytes, bytes_eq, bytes_eq_iff, if◌then◌else◌, All, All-append, arith, Bool-cases, inl,
  inr,
}
use objxp.PropertyTree.{assoc_erase}
use objxp.Path.{valid_obj_path}
use objxp.MsgIo.Transaction.{dod_opt}
use objxp.Tree.{MetaTree, Notification, get_object}
use objxp.Tree.Objects.{Stores, put_object_reads, del_object_reads}
use objxp.Server.Objects.{
  ServerSession, proc_paths, clean_dod, register_dod, dod_paths, handle_put_object, del_all,
  destroy_session,
}

abbrev pub has : Bytes → List Bytes → Bool
has q [] = false
has q (p ∷ ps) = bytes_eq p q || has q ps

abbrev pub Valid : List Bytes → Type 0
Valid = All (λ p. valid_obj_path p ≡ some true)

has-append : (q : Bytes) (ps qs : List Bytes) → has q (ps ++ qs) ≡ (has q ps || has q qs)
has-append q [] qs = refl
has-append q (p ∷ ps) qs = ground (arith, has-append q ps qs)

has-Valid :
    (q : Bytes) (ps : List Bytes) → Valid ps → has q ps ≡ true → valid_obj_path q ≡ some true
has-Valid q [] h e = cc
has-Valid q (p ∷ ps) (h, hs) e = elim (Bool-cases (bytes_eq p q)) [
  | inl same ↦ subst (λ x. valid_obj_path x ≡ some true) ((bytes_eq_iff p q).0 same) h
  | inr other ↦ has-Valid q ps hs (ground arith)
]

Valid-has :
    (ps : List Bytes) → ((q : Bytes) → has q ps ≡ true → valid_obj_path q ≡ some true) → Valid ps
Valid-has [] h = tt
Valid-has (p ∷ ps) h =
    (h p (ground (arith, (bytes_eq_iff p p).1 refl)), Valid-has ps (λ q e. h q (ground arith)))

module _ {Obj : Type 0} (alive alive' : Obj → Bool) where
  dod_paths-clean :
      ((o : Obj) → alive' o ≡ true → alive o ≡ true)
      → (l : List (Bytes × Obj)) → dod_paths alive' (clean_dod alive l) ≡ dod_paths alive' l
  unfolding dod_paths clean_dod
  dod_paths-clean mono [] = refl
  dod_paths-clean mono ((p, o) ∷ l) = ground (arith, dod_paths-clean mono l, mono o)

  has-append_one :
      (q p : Bytes) (o : Obj) (l : List (Bytes × Obj))
      → has q (dod_paths alive' (l ++ ((p, o) ∷ [])))
        ≡ (has q (dod_paths alive' l) || (alive' o && bytes_eq p q))
  unfolding dod_paths
  has-append_one q p o [] = ground arith
  has-append_one q p o ((p', o') ∷ l) = ground (arith, has-append_one q p o l)

  has-erase :
      (q p : Bytes) (l : List (Bytes × Obj))
      → has q (dod_paths alive' (assoc_erase p l))
        ≡ (if bytes_eq p q then false else has q (dod_paths alive' l))
  unfolding dod_paths assoc_erase
  has-erase q p [] = ground arith
  has-erase q p ((p', o') ∷ l) =
      ground (arith, has-erase q p l, bytes_eq_iff p q, bytes_eq_iff p' p, bytes_eq_iff p' q)

  has-register_dod :
      ((o : Obj) → alive' o ≡ true → alive o ≡ true)
      → (q p : Bytes) (o : Obj) (m : List (Bytes × Obj))
      → has q (dod_paths alive' (register_dod alive m p o))
        ≡ (if bytes_eq p q then alive' o else has q (dod_paths alive' m))
  unfolding register_dod
  has-register_dod mono q p o m =
      ap (has q) (dod_paths-clean mono (assoc_erase p m ++ ((p, o) ∷ [])))
      ∙ has-append_one q p o (assoc_erase p m)
      ∙ ground (arith, has-erase q p m)

  Valid-register_dod :
      ((o : Obj) → alive' o ≡ true → alive o ≡ true)
      → (p : Bytes) (o : Obj) (m : List (Bytes × Obj)) → valid_obj_path p ≡ some true
      → Valid (dod_paths alive' m)
      → Valid (dod_paths alive' (register_dod alive m p o))
  Valid-register_dod mono p o m hp h =
      Valid-has (dod_paths alive' (register_dod alive m p o)) λ q e.
        let e' = sym (has-register_dod mono q p o m) ∙ e in
        elim (Bool-cases (bytes_eq p q)) [
          | inl same ↦ subst (λ x. valid_obj_path x ≡ some true) ((bytes_eq_iff p q).0 same) hp
          | inr other ↦ has-Valid q (dod_paths alive' m) h (ground arith)
        ]

module _ {Obj : Type 0} (T : MetaTree Obj) (live : ℕ → Bool) where
  open T use {Node}

  del_all_reads :
      (name : Bytes) (root : Node) (ps : List Bytes)
      → Valid ps
      → (r : Node × List (Notification Obj)) × (del_all T live name root ps ≡ some r)
        × ((q : Bytes)
            → valid_obj_path q ≡ some true
            → get_object T r.0 q ≡ (if has q ps then some none else get_object T root q))
  unfolding del_all
  del_all_reads name root [] h = ((root, []), refl, λ q hq. refl)
  del_all_reads name root (p ∷ ps) (h, hs) =
      let (root', notes, run, gone, rest) = del_object_reads T live name root p h in
      let (t, run', reads) = del_all_reads name root' ps hs in
      (
        (t.0, notes ++ t.1),
        rw (run, run') refl,
        λ q hq. reads q hq ∙ elim (Bool-cases (bytes_eq p q)) [
          | inl same ↦
              let gone' : get_object T root' q ≡ some none =
                subst (λ x. get_object T root' x ≡ some none) ((bytes_eq_iff p q).0 same) gone in
              rw (same, gone') (ground arith)
          | inr other ↦
              let kept = rest q hq (λ e. ground (arith, (bytes_eq_iff p q).1 (sym e))) in
              rw (other, kept) refl
        ],
      )

  module _ (equals : Obj → Obj → Option Bool) (alive alive' : Obj → Bool) where
    -- The paths that the end of the session deletes after a put: those of its own under /proc, the
    -- path of the put if it asks for it and its object is still alive, and those that were recorded
    -- before.
    abbrev pub deleted_after : ServerSession Obj → Bytes → Obj → Bytes → Bytes → Bool
    deleted_after s path o opt q =
        has q (proc_paths s.session_name)
        || (if bytes_eq opt dod_opt && bytes_eq path q
            then alive' o
            else has q (dod_paths alive' s.dod_map))

    -- A session handles putObject at a valid path, where the comparison with the old object
    -- returns, and ends later, when no object is alive that was not so before, and all recorded
    -- paths of living objects are valid, like its own. Then the put and the end both return, and at
    -- the end each valid path is deleted exactly if it is one of the session's own, or the put's,
    -- with the option for deletion on disconnect and its object still alive, or, unless that put
    -- replaced its entry, a path that was recorded before with an object still alive; any other
    -- reads as it did after the put.
    pub handle_put_object-destroy_session :
        (name : Bytes) (root : Node) (s : ServerSession Obj) (path : Bytes) (o : Obj) (opt : Bytes)
        → ((x : Obj) → alive' x ≡ true → alive x ≡ true)
        → valid_obj_path path ≡ some true
        → ((old : Obj)
            → get_object T root path ≡ some (some old)
            → (b : Bool) × (equals old o ≡ some b))
        → Valid (proc_paths s.session_name)
        → Valid (dod_paths alive' s.dod_map)
        → (root' : Node) × (s' : ServerSession Obj) × (notes : List (Notification Obj)) × (r : Node
            × List (Notification Obj))
          × (handle_put_object T live equals alive name root s path o opt ≡ some (root', s', notes))
          × Stores T live equals root root' path o notes
          × (destroy_session T live alive' name root' s' ≡ some r)
          × ((q : Bytes)
              → valid_obj_path q ≡ some true
              → get_object T r.0 q
                ≡ (if deleted_after s path o opt q then some none else get_object T root' q))
    unfolding handle_put_object destroy_session
    handle_put_object-destroy_session name root s path o opt mono hp comparable own recorded =
        let (root', notes, run, stores, rest) =
          put_object_reads T live equals name root path o hp comparable in
        let m = if bytes_eq opt dod_opt then register_dod alive s.dod_map path o else s.dod_map in
        let s' : ServerSession Obj = record s { dod_map = m } in
        let valid : Valid (dod_paths alive' m) = elim (Bool-cases (bytes_eq opt dod_opt)) [
          | inl dod ↦ rw dod (Valid-register_dod alive alive' mono path o s.dod_map hp recorded)
          | inr plain ↦ rw plain recorded
        ] in
        let paths = proc_paths s.session_name ++ dod_paths alive' m in
        let (r, end, reads) = del_all_reads name root' paths (
          All-append (λ p. valid_obj_path p ≡ some true) (proc_paths s.session_name)
            (dod_paths alive' m) own valid) in
        (
          root',
          s',
          notes,
          r,
          rw run refl,
          stores,
          end,
          λ q hq.
              reads q hq
              ∙ ap (λ b. if b then some none else get_object T root' q)
                  (has-append q (proc_paths s.session_name) (dod_paths alive' m)
                    ∙ ap (λ b. has q (proc_paths s.session_name) || b)
                        (elim (Bool-cases (bytes_eq opt dod_opt)) [
                          | inl dod ↦ rw dod (has-register_dod alive alive' mono q path o s.dod_map)
                          | inr plain ↦ rw plain refl
                        ])),
        )
