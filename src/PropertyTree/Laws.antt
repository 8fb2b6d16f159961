-- ===== src/PropertyTree/Laws.antt =====
-- Lookup after each change of a child, from the laws of the interface.
use objxp.Common.{
  ◌≡◌, refl, sym, ◌∙◌, ap, List, [], ◌∷◌, none, some, arith, Bytes, bytes_eq, bytes_eq_iff,
  if◌then◌else◌,
}
use objxp.PropertyTree.{PropertyTree, assoc_get, assoc_set, assoc_erase}

module _ {ℓ} {A : Type ℓ} where
  assoc_get-assoc_set :
      (k j : Bytes) (a : A) (l : List (Bytes × A))
      → assoc_get j (assoc_set k a l) ≡ (if bytes_eq k j then some a else assoc_get j l)
  unfolding assoc_get assoc_set
  assoc_get-assoc_set k j a [] = refl
  assoc_get-assoc_set k j a ((i, b) ∷ l) =
      ground
        (arith, assoc_get-assoc_set k j a l, bytes_eq_iff k j, bytes_eq_iff i k, bytes_eq_iff i j)

  assoc_get-assoc_erase :
      (k j : Bytes) (l : List (Bytes × A))
      → assoc_get j (assoc_erase k l) ≡ (if bytes_eq k j then none else assoc_get j l)
  unfolding assoc_get assoc_erase
  assoc_get-assoc_erase k j [] = ground arith
  assoc_get-assoc_erase k j ((i, b) ∷ l) =
      ground
        (arith, assoc_get-assoc_erase k j l, bytes_eq_iff k j, bytes_eq_iff i k, bytes_eq_iff i j)

module _ {D : Type 0} (T : PropertyTree D) where
  open T use {Node, get_child, put_child, erase, put_value}

  pub get_child-put_child :
      (n : Node) (k j : Bytes) (c : Node)
      → get_child (put_child n k c) j ≡ (if bytes_eq k j then some c else get_child n j)
  get_child-put_child n k j c =
      rw (T.get_child_lem, T.children-put_child, assoc_get-assoc_set)
        (ap (λ o. if bytes_eq k j then some c else o) (sym (T.get_child_lem n j)))

  pub get_child-erase :
      (n : Node) (k j : Bytes)
      → get_child (erase n k) j ≡ (if bytes_eq k j then none else get_child n j)
  get_child-erase n k j =
      rw (T.get_child_lem, T.children-erase, assoc_get-assoc_erase)
        (ap (λ o. if bytes_eq k j then none else o) (sym (T.get_child_lem n j)))

  pub get_child-put_value :
      (n : Node) (d : D) (k : Bytes) → get_child (put_value n d) k ≡ get_child n k
  get_child-put_value n d k =
      T.get_child_lem _ k ∙ ap (assoc_get k) (T.children-put_value n d) ∙ sym (T.get_child_lem n k)

  pub get_child-empty : (d : D) (k : Bytes) → get_child (T.empty d) k ≡ none
  get_child-empty d k =
      T.get_child_lem _ k ∙ ap (assoc_get k) (T.children-empty d) ∙ (unfold assoc_get in refl)
