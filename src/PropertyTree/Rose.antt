-- ===== src/PropertyTree/Rose.antt =====
-- Finite trees meet the property-tree interface. Tests and examples run on them.
use Prim.Native.Nat.{max}
use objxp.Common.{
  ℕ, suc, ◌<◌, ◌≤◌, ◌≡◌, refl, ap, inl, inr, List, [], ◌∷◌, Option, none, some, arith, Bytes, ◌>>=◌,
  In,
}
use objxp.PropertyTree.{PropertyTree, assoc_get, assoc_set, assoc_erase}

mutual
  pub data Rose (D : Type 0) : Type 0 where
    rose : D → Kids D → Rose D

  pub data Kids (D : Type 0) : Type 0 where
    nil : Kids D
    kid : Bytes → Rose D → Kids D → Kids D

abbrev pub to_list : {D : Type 0} → Kids D → List (Bytes × Rose D)
to_list nil = []
to_list (kid k c l) = (k, c) ∷ to_list l

abbrev pub of_list : {D : Type 0} → List (Bytes × Rose D) → Kids D
of_list [] = nil
of_list ((k, c) ∷ l) = kid k c (of_list l)

pub to_list-of_list : {D : Type 0} (l : List (Bytes × Rose D)) → to_list (of_list l) ≡ l
to_list-of_list [] = refl
to_list-of_list ((k, c) ∷ l) = ap (λ t. (k, c) ∷ t) (to_list-of_list l)

unfoldable mutual
  pub depth : {D : Type 0} → Rose D → ℕ
  depth (rose d l) = suc (depth_kids l)

  pub depth_kids : {D : Type 0} → Kids D → ℕ
  depth_kids nil = 0
  depth_kids (kid k c l) = max (depth c) (depth_kids l)

abbrev pub rose_value : {D : Type 0} → Rose D → D
rose_value (rose d l) = d

abbrev pub rose_children : {D : Type 0} → Rose D → List (Bytes × Rose D)
rose_children (rose d l) = to_list l

unfoldable pub rose_get_path : {D : Type 0} → Rose D → List Bytes → Option (Rose D)
rose_get_path n [] = some n
rose_get_path n (k ∷ ks) = elim (assoc_get k (rose_children n)) [
  | none ↦ none
  | some c ↦ rose_get_path c ks
]

abbrev pub rose_put_child : {D : Type 0} → Rose D → Bytes → Rose D → Rose D
rose_put_child n k c = rose (rose_value n) (of_list (assoc_set k c (rose_children n)))

unfoldable pub rose_put_path : {D : Type 0} → D → Rose D → List Bytes → D → Rose D
rose_put_path u n [] d = rose d (of_list (rose_children n))
rose_put_path u n (k ∷ ks) d =
    rose_put_child n k (
      rose_put_path u (elim (assoc_get k (rose_children n)) [ none ↦ rose u nil | some c ↦ c ]) ks
        d)

depth-below :
    {D : Type 0} (k : Bytes) (c : Rose D) (l : Kids D)
    → In (k, c) (to_list l)
    → depth c ≤ depth_kids l
unfolding depth
depth-below k c nil m = absurd m
depth-below k c (kid j b l) (inl e) = omega (arith, ap (λ (t : Bytes × Rose _). depth t.1) e)
depth-below k c (kid j b l) (inr m) = omega (arith, depth-below k c l m)

pub height_child :
    {D : Type 0} (n : Rose D) (k : Bytes) (c : Rose D)
    → In (k, c) (rose_children n)
    → depth c < depth n
unfolding depth
height_child (rose d l) k c m = omega (arith, depth-below k c l m)

pub get_path-cons :
    {D : Type 0} (n : Rose D) (k : Bytes) (ks : List Bytes)
    → rose_get_path n (k ∷ ks) ≡ (assoc_get k (rose_children n) >>= λ c. rose_get_path c ks)
unfolding rose_get_path
get_path-cons n k ks = ground arith

pub get_path-nil : {D : Type 0} (n : Rose D) → rose_get_path n [] ≡ some n
unfolding rose_get_path
get_path-nil n = refl

pub put_path-nil :
    {D : Type 0} (u : D) (n : Rose D) (d : D)
    → rose_put_path u n [] d ≡ rose d (of_list (rose_children n))
unfolding rose_put_path
put_path-nil u n d = refl

pub put_path-cons :
    {D : Type 0} (u : D) (n : Rose D) (k : Bytes) (ks : List Bytes) (d : D)
    → rose_put_path u n (k ∷ ks) d
      ≡ rose_put_child n k (
          rose_put_path u
            (elim (assoc_get k (rose_children n)) [ none ↦ rose u nil | some c ↦ c ])
            ks
            d)
unfolding rose_put_path
put_path-cons u n k ks d = refl

abbrev pub rose_tree : (D : Type 0) → PropertyTree D
rose_tree D = record {
  Node = Rose D;
  value = rose_value;
  children = rose_children;
  height = depth;
  empty = λ d. rose d nil;
  put_value = λ n d. rose d (of_list (rose_children n));
  get_child = λ n k. assoc_get k (rose_children n);
  put_child = rose_put_child;
  erase = λ n k. rose (rose_value n) (of_list (assoc_erase k (rose_children n)));
  get_path = rose_get_path;
  put_path = rose_put_path;
  value-empty = λ d. refl;
  children-empty = λ d. refl;
  value-put_value = λ n d. refl;
  children-put_value = λ n d. to_list-of_list (rose_children n);
  get_child_lem = λ n k. refl;
  value-put_child = λ n k c. refl;
  children-put_child = λ n k c. to_list-of_list (assoc_set k c (rose_children n));
  value-erase = λ n k. refl;
  children-erase = λ n k. to_list-of_list (assoc_erase k (rose_children n));
  get_path-nil = get_path-nil;
  get_path-cons = get_path-cons;
  put_path-nil = put_path-nil;
  put_path-cons = put_path-cons;
  height_child = height_child;
}
