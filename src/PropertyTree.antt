-- ===== src/PropertyTree.antt =====
-- What the code relies on of boost::property_tree::basic_ptree<String, D>: an interface, since the
-- library is not part of the repository. A node holds a value and a list of children with keys.
-- A path of the library is given by its elements, the texts between its separators.
pub mod Laws
pub mod Rose
use objxp.Common.{
  ℕ, ◌<◌, ◌≡◌, List, [], ◌∷◌, ◌++◌, Option, none, some, Bytes, bytes_eq, if◌then◌else◌, ◌>>=◌, In,
}

-- The first child with a key.
unfoldable pub assoc_get {ℓ} : {A : Type ℓ} → Bytes → List (Bytes × A) → Option A
assoc_get k [] = none
assoc_get k ((j, a) ∷ l) = if bytes_eq j k then some a else assoc_get k l

-- Replaces the first child with a key, or adds one at the end.
unfoldable pub assoc_set {ℓ} : {A : Type ℓ} → Bytes → A → List (Bytes × A) → List (Bytes × A)
assoc_set k a [] = (k, a) ∷ []
assoc_set k a ((j, b) ∷ l) = if bytes_eq j k then (j, a) ∷ l else (j, b) ∷ assoc_set k a l

-- Removes every child with a key.
unfoldable pub assoc_erase {ℓ} : {A : Type ℓ} → Bytes → List (Bytes × A) → List (Bytes × A)
assoc_erase k [] = []
assoc_erase k ((j, b) ∷ l) =
    let rest = assoc_erase k l in if bytes_eq j k then rest else (j, b) ∷ rest

pub record PropertyTree (D : Type 0) : Type 1 where
  -- basic_ptree<String, D>; `height` bounds the depth of the tree below a node.
  pub Node : Type 0
  pub value : Node → D
  pub children : Node → List (Bytes × Node)
  pub height : Node → ℕ
  -- The default constructor, with the value D().
  pub empty : D → Node
  pub put_value : Node → D → Node
  -- get_child, put_child and erase at a path of one element.
  pub get_child : Node → Bytes → Option Node
  pub put_child : Node → Bytes → Node → Node
  pub erase : Node → Bytes → Node
  -- get_child and put at a path of any length.
  pub get_path : Node → List Bytes → Option Node
  pub put_path : D → Node → List Bytes → D → Node
  pub value-empty : (d : D) → value (empty d) ≡ d
  pub children-empty : (d : D) → children (empty d) ≡ []
  pub value-put_value : (n : Node) (d : D) → value (put_value n d) ≡ d
  pub children-put_value : (n : Node) (d : D) → children (put_value n d) ≡ children n
  pub get_child_lem : (n : Node) (k : Bytes) → get_child n k ≡ assoc_get k (children n)
  pub value-put_child : (n : Node) (k : Bytes) (c : Node) → value (put_child n k c) ≡ value n
  pub children-put_child :
      (n : Node) (k : Bytes) (c : Node) → children (put_child n k c) ≡ assoc_set k c (children n)
  pub value-erase : (n : Node) (k : Bytes) → value (erase n k) ≡ value n
  pub children-erase : (n : Node) (k : Bytes) → children (erase n k) ≡ assoc_erase k (children n)
  pub get_path-nil : (n : Node) → get_path n [] ≡ some n
  pub get_path-cons :
      (n : Node) (k : Bytes) (ks : List Bytes)
      → get_path n (k ∷ ks) ≡ (get_child n k >>= λ c. get_path c ks)
  pub put_path-nil : (u : D) (n : Node) (d : D) → put_path u n [] d ≡ put_value n d
  pub put_path-cons :
      (u : D) (n : Node) (k : Bytes) (ks : List Bytes) (d : D)
      → put_path u n (k ∷ ks) d
        ≡ put_child n k (put_path u (elim (get_child n k) [ none ↦ empty u | some c ↦ c ]) ks d)
  -- A node lies above its children.
  pub height_child :
      (n : Node) (k : Bytes) (c : Node) → In (k, c) (children n) → height c < height n
