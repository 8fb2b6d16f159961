-- ===== src/InfoProvider/Children.antt =====
-- The nodes that the command ls of src/ObexInfoProvider.cpp lists, by the paths of their objects.
use objxp.Common.{
  ℕ, ◌≡◌, ◌≢◌, refl, sym, ap, ◌∙◌, inl, inr, Bool, true, false, List, [], ◌∷◌, ◌++◌, map, Option,
  none, some, arith, Bytes, Lacks, EndsWith, bytes_eq, bytes_eq→eq, codes, replace, getlines,
  getlines-ne-nil, add_head, ◌==◌, In, if◌then◌else◌, ◌>>=◌, bind_parts,
}
use objxp.PropertyTree.{PropertyTree, assoc_get}
use objxp.Path.{esc, valid_obj_path, convert_to_dot_path}
use objxp.Path.Convert.{
  to_dot, to_dot-EndsWith, tokens, valid_obj_path-IsValid, convert_to_dot_path-IsValid,
}
use objxp.YPath.Split.{getlines_one}
use objxp.YPath.Back.{IsText}

-- The path of a child of a path.
abbrev pub child_path : Bytes → Bytes → Bytes
child_path p k = if bytes_eq p (codes "/") then b'/' ∷ k else p ++ (b'/' ∷ k)

abbrev pub escaped : Bytes → Bytes
escaped k = replace b'.' esc k

below : Bytes → Bytes → Bytes
below [] k = k
below (c ∷ r) k = (c ∷ r) ++ (b'/' ∷ k)

child_path-below : (r k : Bytes) → child_path (b'/' ∷ r) k ≡ b'/' ∷ below r k
unfolding below bytes_eq
child_path-below [] k = refl
child_path-below (c ∷ r) k = refl

replace-append : (b c : ℕ) (x y : Bytes) → replace b c (x ++ y) ≡ replace b c x ++ replace b c y
unfolding replace
replace-append b c [] y = refl
replace-append b c (d ∷ x) y = ap (λ t. (if d == b then c else d) ∷ t) (replace-append b c x y)

add_head-append : (c : ℕ) (l m : List Bytes) → l ≢ [] → add_head c (l ++ m) ≡ add_head c l ++ m
add_head-append c [] m h = absurd (h refl)
add_head-append c (t ∷ l) m h = refl

getlines_step :
    (b : Bool) (c : ℕ) (l m : List Bytes)
    → l ≢ []
    → (if b then [] ∷ (l ++ m) else add_head c (l ++ m)) ≡ (if b then [] ∷ l else add_head c l) ++ m
getlines_step true c l m h = refl
getlines_step false c l m h = add_head-append c l m h

getlines-ends :
    (sep : ℕ) (x y : Bytes)
    → x ≢ []
    → ¬ EndsWith sep x
    → getlines sep (x ++ (sep ∷ y)) ≡ getlines sep x ++ getlines sep y
unfolding getlines
getlines-ends sep [] y n h = absurd (n refl)
getlines-ends sep (c ∷ []) y n h = ground arith
getlines-ends sep (c ∷ d ∷ x) y n h =
    ap (λ l. if c == sep then [] ∷ l else add_head c l) (getlines-ends sep (d ∷ x) y (λ e. cc) h)
    ∙ getlines_step (c == sep) c (getlines sep (d ∷ x)) (getlines sep y) (getlines-ne-nil sep d x)

to_dot-escaped : (k : Bytes) → Lacks b'/' k → to_dot k ≡ escaped k
unfolding replace
to_dot-escaped [] h = refl
to_dot-escaped (c ∷ k) h = ground (arith, to_dot-escaped k h.1)

escaped-Lacks : (k : Bytes) → Lacks b'.' (escaped k)
unfolding replace
escaped-Lacks [] = tt
escaped-Lacks (c ∷ k) = ground (arith, escaped-Lacks k)

escaped-ne : (k : Bytes) → k ≢ [] → escaped k ≢ []
unfolding replace
escaped-ne [] h e = h refl
escaped-ne (c ∷ k) h e = cc

one_line : (t : Bytes) → t ≢ [] → Lacks b'.' t → getlines b'.' t ≡ t ∷ []
one_line [] h l = absurd (h refl)
one_line (c ∷ t) h l = getlines_one b'.' c t l

to_dot-append : (x k : Bytes) → to_dot (x ++ (b'/' ∷ k)) ≡ to_dot x ++ (b'.' ∷ to_dot k)
unfolding replace
to_dot-append x k =
    ap (replace b'/' b'.') (replace-append b'.' esc x (b'/' ∷ k))
    ∙ replace-append b'/' b'.' (replace b'.' esc x) (b'/' ∷ replace b'.' esc k)

to_dot-ne : (c : ℕ) (r : Bytes) → to_dot (c ∷ r) ≢ []
unfolding replace
to_dot-ne c r e = cc

tokens-one : (k : Bytes) → IsText k → tokens (to_dot k) ≡ escaped k ∷ []
tokens-one k h =
    ap (getlines b'.') (to_dot-escaped k h.1)
    ∙ one_line (escaped k) (escaped-ne k h.0) (escaped-Lacks k)

tokens-below :
    (r k : Bytes)
    → ¬ EndsWith b'/' r
    → IsText k
    → tokens (to_dot (below r k)) ≡ tokens (to_dot r) ++ (escaped k ∷ [])
unfolding below
tokens-below [] k h t = unfold getlines replace in tokens-one k t
tokens-below (c ∷ r) k h t =
    ap tokens (to_dot-append (c ∷ r) k)
    ∙ getlines-ends b'.' (to_dot (c ∷ r)) (to_dot k) (to_dot-ne c r)
        (λ e. h (to_dot-EndsWith (c ∷ r) e))
    ∙ ap (λ l. tokens (to_dot (c ∷ r)) ++ l) (tokens-one k t)

-- The tokens of a child are those of its parent and one more.
pub tokens-child_path :
    (p k d e : Bytes)
    → valid_obj_path p ≡ some true
    → IsText k
    → valid_obj_path (child_path p k) ≡ some true
    → convert_to_dot_path p ≡ some d
    → convert_to_dot_path (child_path p k) ≡ some e
    → tokens e ≡ tokens d ++ (escaped k ∷ [])
tokens-child_path p k d e hp hk hc hd he =
    let v = valid_obj_path-IsValid p hp in
    let w = valid_obj_path-IsValid (child_path p k) hc in
    let shape : child_path p k ≡ b'/' ∷ below v.rest k =
      ap (λ t. child_path t k) v.shape ∙ child_path-below v.rest k in
    let same : w.rest ≡ below v.rest k = cc (sym w.shape ∙ shape) in
    let ed : d ≡ to_dot v.rest = cc (convert_to_dot_path-IsValid p v) in
    let ee : e ≡ to_dot w.rest = cc (convert_to_dot_path-IsValid (child_path p k) w) in
    ap tokens (ee ∙ ap to_dot same)
    ∙ tokens-below v.rest k v.end hk
    ∙ ap (λ t. tokens t ++ (escaped k ∷ [])) (sym ed)

assoc_get-In :
    {A : Type 0} (k : Bytes) (l : List (Bytes × A)) (a : A)
    → assoc_get k l ≡ some a
    → In k (map (λ e. e.0) l)
unfolding assoc_get
assoc_get-In k [] a h = cc
assoc_get-In {A} k ((j, b) ∷ l) a h = at (bytes_eq j k) refl (λ g. assoc_get-In k l a g)
  where
    at :
        (t : Bool)
        → bytes_eq j k ≡ t
        → (assoc_get k l ≡ some a → In k (map (λ e. e.0) l))
        → In k (map (λ e. e.0) ((j, b) ∷ l))
    at true e f = inl (sym (bytes_eq→eq j k e))
    at false e f = inr (f (ground (arith, e)))

module _ {D : Type 0} (T : PropertyTree D) where
  open T use {Node, children, get_child, get_path}

  get_path-append :
      (n : Node) (xs ys : List Bytes)
      → get_path n (xs ++ ys) ≡ (get_path n xs >>= λ c. get_path c ys)
  get_path-append n [] ys = rw (T.get_path-nil n) refl
  get_path-append n (x ∷ xs) ys =
      T.get_path-cons n x (xs ++ ys)
      ∙ bind_parts (get_child n x) (λ c. get_path c xs) (λ c. get_path c ys)
          (λ c. get_path c (xs ++ ys)) (λ c. get_path-append c xs ys)
      ∙ ap (λ g. g >>= λ c. get_path c ys) (sym (T.get_path-cons n x xs))

  child-listed :
      (n m : Node) (k : Bytes) (g : Option Node)
      → get_child n k ≡ g
      → (g >>= λ c. get_path c []) ≡ some m
      → In k (map (λ e. e.0) (children n))
  child-listed n m k none e h = cc
  child-listed n m k (some c) e h = assoc_get-In k (children n) c (sym (T.get_child_lem n k) ∙ e)

  listed_under :
      (root m : Node) (ks : List Bytes) (k : Bytes) (g : Option Node)
      → get_path root ks ≡ g
      → (g >>= λ c. get_path c (k ∷ [])) ≡ some m
      → (n : Node) × (get_path root ks ≡ some n) × In k (map (λ e. e.0) (children n))
  listed_under root m ks k none e h = cc
  listed_under root m ks k (some n) e h =
      (n, e, child-listed n m k (get_child n k) refl (sym (T.get_path-cons n k []) ∙ h))

  -- A node below a node is reached through a child, whose name is listed.
  pub get_path-listed :
      (root m : Node) (ks : List Bytes) (k : Bytes)
      → get_path root (ks ++ (k ∷ [])) ≡ some m
      → (n : Node) × (get_path root ks ≡ some n) × In k (map (λ e. e.0) (children n))
  get_path-listed root m ks k h =
      listed_under root m ks k (get_path root ks) refl (sym (get_path-append root ks (k ∷ [])) ∙ h)
