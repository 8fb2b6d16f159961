-- ===== src/Client/Registry.antt =====
-- Lookup in the maps of ObexClient of src/ObexClient.cpp after their operations.
use objxp.Common.{
  ◌≡◌, ◌≢◌, refl, sym, List, [], ◌∷◌, ◌++◌, none, some, Bytes, bytes_eq, bytes_eq_iff,
  if◌then◌else◌, All, arith, Bool-cases, bytes_eq_refl, subst, All-append, inl, inr,
}
use objxp.PropertyTree.{assoc_get, assoc_erase}
use objxp.Tree.Callbacks.{object_insert}
use objxp.Client.{ClientSession, find_named, drop_named}

module _ {A : Type 0} where
  assoc_get-append :
      (k j : Bytes) (a : A) (l : List (Bytes × A))
      → assoc_get k l ≡ none
      → assoc_get j (l ++ ((k, a) ∷ [])) ≡ (if bytes_eq k j then some a else assoc_get j l)
  unfolding assoc_get
  assoc_get-append k j a [] h = refl
  assoc_get-append k j a ((i, b) ∷ l) h =
      ground (arith, assoc_get-append k j a l, bytes_eq_iff k j, bytes_eq_iff i k, bytes_eq_iff i j)

  pub object_insert_new :
      (k : Bytes) (a : A) (l : List (Bytes × A))
      → assoc_get k l ≡ none
      → object_insert k a l ≡ l ++ ((k, a) ∷ [])
  unfolding object_insert
  object_insert_new k a l h = ground arith

  -- Insertion at a key that is free.
  pub assoc_get-object_insert :
      (k j : Bytes) (a : A) (l : List (Bytes × A))
      → assoc_get k l ≡ none
      → assoc_get j (object_insert k a l) ≡ (if bytes_eq k j then some a else assoc_get j l)
  assoc_get-object_insert k j a l h = rw (object_insert_new k a l h) (assoc_get-append k j a l h)

  pub assoc_get-erase :
      (k j : Bytes) (l : List (Bytes × A))
      → assoc_get j (assoc_erase k l) ≡ (if bytes_eq k j then none else assoc_get j l)
  unfolding assoc_get assoc_erase
  assoc_get-erase k j [] = ground arith
  assoc_get-erase k j ((i, b) ∷ l) =
      ground (arith, assoc_get-erase k j l, bytes_eq_iff k j, bytes_eq_iff i k, bytes_eq_iff i j)

-- Two entries differ in their keys and in the names of their sessions.
abbrev pub Distinct : List (Bytes × ClientSession) → Type 0
Distinct [] = Unit
Distinct ((k, s) ∷ l) =
    (assoc_get k l ≡ none) × All (λ e. e.1.session_name ≢ s.session_name) l × Distinct l

abbrev pub Unnamed : Bytes → List (Bytes × ClientSession) → Type 0
Unnamed name = All (λ e. e.1.session_name ≢ name)

drop_named-Unnamed :
    (name : Bytes) (l : List (Bytes × ClientSession)) → Unnamed name l → drop_named name l ≡ l
unfolding drop_named
drop_named-Unnamed name [] h = refl
drop_named-Unnamed name ((k, s) ∷ l) h =
    ground (arith, drop_named-Unnamed name l h.1, bytes_eq_iff s.session_name name)

Unnamed-get :
    (name k : Bytes) (l : List (Bytes × ClientSession)) (s : ClientSession)
    → Unnamed name l
    → assoc_get k l ≡ some s
    → s.session_name ≢ name
unfolding assoc_get
Unnamed-get name k [] s h e = cc
Unnamed-get name k ((i, t) ∷ l) s h e = elim (Bool-cases (bytes_eq i k)) [
  | inl same ↦
      let q : t ≡ s = ground arith in subst (λ (x : ClientSession). x.session_name ≢ name) q h.0
  | inr other ↦ Unnamed-get name k l s h.1 (ground (arith))
]

pub find_named-get :
    (k : Bytes) (l : List (Bytes × ClientSession)) (s : ClientSession)
    → Distinct l
    → assoc_get k l ≡ some s
    → find_named s.session_name l ≡ some k
unfolding assoc_get find_named
find_named-get k [] s d e = cc
find_named-get k ((i, t) ∷ l) s d e = elim (Bool-cases (bytes_eq i k)) [
  | inl same ↦
      let q : t ≡ s = ground arith in ground (arith, bytes_eq_iff i k, bytes_eq_refl s.session_name)
  | inr other ↦
      let r : assoc_get k l ≡ some s = ground arith in
      ground (
        arith,
        find_named-get k l s d.2 r,
        Unnamed-get t.session_name k l s d.1 r,
        bytes_eq_iff t.session_name s.session_name,
      )
]

pub drop_named-get :
    (k j : Bytes) (l : List (Bytes × ClientSession)) (s : ClientSession)
    → Distinct l
    → assoc_get k l ≡ some s
    → assoc_get j (drop_named s.session_name l) ≡ (if bytes_eq k j then none else assoc_get j l)
unfolding assoc_get drop_named
drop_named-get k j [] s d e = cc
drop_named-get k j ((i, t) ∷ l) s d e = elim (Bool-cases (bytes_eq i k)) [
  | inl same ↦
      let q : t ≡ s = ground arith in
      ground (
        arith,
        bytes_eq_iff i k,
        bytes_eq_iff k j,
        bytes_eq_iff i j,
        bytes_eq_refl s.session_name,
        drop_named-Unnamed t.session_name l d.1,
      )
  | inr other ↦
      let r : assoc_get k l ≡ some s = ground arith in
      ground (
        arith,
        drop_named-get k j l s d.2 r,
        Unnamed-get t.session_name k l s d.1 r,
        bytes_eq_iff t.session_name s.session_name,
        bytes_eq_iff i k,
        bytes_eq_iff k j,
        bytes_eq_iff i j,
      )
]

pub append-Distinct :
    (k : Bytes) (s : ClientSession) (l : List (Bytes × ClientSession))
    → Distinct l
    → assoc_get k l ≡ none
    → Unnamed s.session_name l
    → Distinct (l ++ ((k, s) ∷ []))
unfolding assoc_get
append-Distinct k s [] d e u = (refl, tt, tt)
append-Distinct k s ((i, t) ∷ l) d e u =
    let r : assoc_get k l ≡ none = ground arith in
    (
      ground (arith, assoc_get-append k i s l r, bytes_eq_iff i k, bytes_eq_iff k i),
      All-append (λ (x : Bytes × ClientSession). x.1.session_name ≢ t.session_name) l ((k, s) ∷ [])
          d.1 ((λ q. u.0 (sym q)), tt),
      append-Distinct k s l d.2 r u.1,
    )

drop_named-absent :
    (name k : Bytes) (l : List (Bytes × ClientSession))
    → assoc_get k l ≡ none
    → assoc_get k (drop_named name l) ≡ none
unfolding assoc_get drop_named
drop_named-absent name k [] e = refl
drop_named-absent name k ((i, t) ∷ l) e = ground (arith, drop_named-absent name k l)

drop_named-others :
    (name m : Bytes) (l : List (Bytes × ClientSession))
    → Unnamed m l
    → Unnamed m (drop_named name l)
unfolding drop_named
drop_named-others name m [] h = tt
drop_named-others name m ((i, t) ∷ l) h = ground (arith, drop_named-others name m l h.1)

pub drop_named-Distinct :
    (name : Bytes) (l : List (Bytes × ClientSession)) → Distinct l → Distinct (drop_named name l)
unfolding drop_named
drop_named-Distinct name [] d = tt
drop_named-Distinct name ((i, t) ∷ l) d = ground (
  arith,
  drop_named-Distinct name l d.2,
  drop_named-others name t.session_name l d.1,
  drop_named-absent name i l d.0,
)
