-- ===== src/Tree.antt =====
-- The object tree: the state and the object operations of src/ObexTree.cpp and include/ObexTree.h.
-- A callback is an object with an identity; `live c` says whether a weak pointer to it still locks.
-- Its address, which a later object may get, is a parameter where a map is searched by it. The tree
-- of nodes is boost's property tree, an interface. A walk through references into the tree is a
-- recursion that rebuilds the nodes on its path. `none` is an exception or a crash.
pub mod Observe
pub mod PutWalk
pub mod Objects
pub mod Callbacks
pub mod Registered
pub mod Told
pub mod Unchanged
pub mod Receivers
pub mod Notify
pub mod DelWalk
mod Tests
use objxp.Common.{
  ℕ, ◌≡◌, refl, Bool, true, false, not, ◌&&◌, ◌||◌, List, [], ◌∷◌, ◌++◌, map, Option, none, some,
  Bytes, is_empty, ◌==◌, if◌then◌else◌, ◌>>=◌,
}
use objxp.PropertyTree.{PropertyTree}
use objxp.Path.{valid_obj_path, convert_to_dot_path}
use objxp.Path.Convert.{tokens}

-- ObexMetaNode: the maps of callbacks for the node itself, its children and all below it. An entry
-- is the callback of its weak pointer; the key is the address that the callback had when it was
-- inserted, and stays in the map when the callback is gone, also where a later one has its address.
pub record MetaNode (Obj : Type 0) : Type 0 where
  pub c_cbs : List ℕ
  pub i_cbs : List ℕ
  pub a_cbs : List ℕ
  pub o_obj : Option Obj

abbrev pub empty_meta : {Obj : Type 0} → MetaNode Obj
empty_meta = record { c_cbs = []; i_cbs = []; a_cbs = []; o_obj = none }

-- The tree of nodes whose values are pointers to a MetaNode, null for `none`.
abbrev pub MetaTree : Type 0 → Type 1
MetaTree Obj = PropertyTree (Option (MetaNode Obj))

-- onUpdated and onDeleted calls, with the callback that receives them.
pub data Notification (Obj : Type 0) : Type 0 where
  updated : ℕ → Bytes → Bytes → Obj → Option Obj → Notification Obj
  deleted : ℕ → Bytes → Bytes → Obj → Notification Obj

unfoldable pub mem : ℕ → List ℕ → Bool
mem c [] = false
mem c (d ∷ l) = (d == c) || mem c l

-- Insertion into a set.
pub set_insert : ℕ → List ℕ → List ℕ
set_insert c l = if mem c l then l else l ++ (c ∷ [])

module _ (address : ℕ → ℕ) where
  -- A map has an entry whose key is an address.
  pub has_address : ℕ → List ℕ → Bool
  has_address a [] = false
  has_address a (d ∷ l) = (address d == a) || has_address a l

  -- std::map::insert of a weak pointer under the address of its object; an entry that is there
  -- under this address stays.
  pub map_insert : ℕ → List ℕ → List ℕ
  map_insert c l = if has_address (address c) l then l else l ++ (c ∷ [])

  -- std::map::erase of the entry under an address.
  pub map_erase : ℕ → List ℕ → List ℕ
  map_erase a [] = []
  map_erase a (d ∷ l) = let rest = map_erase a l in if address d == a then rest else d ∷ rest

module _ (live : ℕ → Bool) where
  -- addToCallbackSet, as it fills the set.
  pub add_to_callback_set : List ℕ → List ℕ → List ℕ
  add_to_callback_set set [] = set
  add_to_callback_set set (c ∷ m) = add_to_callback_set (if live c then set_insert c set else set) m

  -- addToCallbackSet, as it removes the dead entries of the map.
  pub drop_dead : List ℕ → List ℕ
  drop_dead [] = []
  drop_dead (c ∷ m) = let rest = drop_dead m in if live c then c ∷ rest else rest

-- How the walk of putObject ended: at an equal object, or after a write over the old object.
pub data PutOutcome (Obj : Type 0) : Type 0 where
  identical : PutOutcome Obj
  written : Option Obj → List ℕ → PutOutcome Obj

-- How the walk of delObject ended; the flag says that the cleaning loop has not stopped yet.
pub data DelOutcome (Obj : Type 0) : Type 0 where
  absent : DelOutcome Obj
  removed : Obj → List ℕ → Bool → DelOutcome Obj

module _ {Obj : Type 0} (T : MetaTree Obj) where
  open T use {Node, value, children, get_child, put_child, put_value, get_path, erase}

  abbrev pub i_cbs_of : Option (MetaNode Obj) → List ℕ
  i_cbs_of none = []
  i_cbs_of (some m) = m.i_cbs

  abbrev pub a_cbs_of : Option (MetaNode Obj) → List ℕ
  a_cbs_of none = []
  a_cbs_of (some m) = m.a_cbs

  abbrev pub c_cbs_of : Option (MetaNode Obj) → List ℕ
  c_cbs_of none = []
  c_cbs_of (some m) = m.c_cbs

  abbrev pub obj_of : Option (MetaNode Obj) → Option Obj
  obj_of none = none
  obj_of (some m) = m.o_obj

  abbrev pub meta_or_new : Option (MetaNode Obj) → MetaNode Obj
  meta_or_new none = empty_meta
  meta_or_new (some m) = m

  -- A change through the pointer to the node's MetaNode.
  pub update_meta : Node → (MetaNode Obj → MetaNode Obj) → Node
  update_meta n f = elim (value n) [ none ↦ n | some m ↦ put_value n (some (f m)) ]

  -- getMetaNode(dotPath)
  unfoldable pub get_meta_node : Node → Bytes → Option (MetaNode Obj)
  get_meta_node root dot =
      if is_empty dot
      then value root
      else elim (get_path root (tokens dot)) [ none ↦ none | some n ↦ value n ]

  -- getChildPtNode(ptNode, token, true)
  pub child_or_new : Node → Bytes → Node
  child_or_new n k = elim (get_child n k) [ none ↦ T.empty none | some c ↦ c ]

  unfoldable pub get_object : Node → Bytes → Option (Option Obj)
  get_object root path = do
    valid ← valid_obj_path path
    if not valid
        then some none
        else do dot ← convert_to_dot_path path; some (obj_of (get_meta_node root dot))

  -- The test of the cleaning loop: no child, and no MetaNode or one with nothing in it.
  abbrev pub is_trivial_meta : Option (MetaNode Obj) → Bool
  is_trivial_meta none = true
  is_trivial_meta (some m) = elim m.o_obj [
    | none ↦ is_empty m.c_cbs && is_empty m.i_cbs && is_empty m.a_cbs
    | some o ↦ false
  ]

  pub is_trivial : Node → Bool
  is_trivial n = is_empty (children n) && is_trivial_meta (value n)

  module _ (live : ℕ → Bool) where
    pub prune_a : Node → Node
    prune_a n = update_meta n (λ m. record m { a_cbs = drop_dead live m.a_cbs })

    pub prune_i : Node → Node
    prune_i n = update_meta n (λ m. record m { i_cbs = drop_dead live m.i_cbs })

    -- The last round of the walk of delObject, at the node of the path.
    pub del_here : List ℕ → Node → List ℕ → Node × DelOutcome Obj
    del_here parent_i n set = elim (value n) [
      | none ↦ (n, absent)
      | some m ↦ elim m.o_obj [
        | none ↦ (n, absent)
        | some old ↦ (
          put_value n (some (record m { o_obj = none; c_cbs = drop_dead live m.c_cbs })),
          removed old (add_to_callback_set live (add_to_callback_set live set parent_i) m.c_cbs)
              true,
        )
      ]
    ]

    -- The cleaning loop at one parent, with the changes of the walk below it.
    pub clean_up : Node → Bytes → Bool → Node → DelOutcome Obj → Node × DelOutcome Obj
    clean_up n k is_parent c absent = (put_child n k c, absent)
    clean_up n k is_parent c (removed old set cleaning) =
        let n' = if is_parent then prune_i n else n in
        if cleaning && is_trivial c
        then (erase n' k, removed old set true)
        else (put_child n' k c, removed old set false)

    pub del_walk : List ℕ → Node → List Bytes → List ℕ → Node × DelOutcome Obj
    del_walk parent_i n [] set = del_here parent_i n set
    del_walk parent_i n (k ∷ ks) set =
        let set' = add_to_callback_set live set (a_cbs_of (value n)) in
        elim (get_child n k) [
          | none ↦ (prune_a n, absent)
          | some c ↦
              let r = del_walk (i_cbs_of (value n)) c ks set' in
              clean_up (prune_a n) k (is_empty ks) r.0 r.1
        ]

    abbrev pub put_back : Node → Bytes → Bool → Node × PutOutcome Obj → Node × PutOutcome Obj
    put_back n k is_parent (c, identical) = (put_child n k c, identical)
    put_back n k is_parent (c, written old set) =
        (put_child (if is_parent then prune_i n else n) k c, written old set)

    -- The onUpdated calls that follow the walk.
    abbrev pub updates : Bytes → Bytes → Obj → PutOutcome Obj → List (Notification Obj)
    updates name path o identical = []
    updates name path o (written old set) = map (λ cb. updated cb name path o old) set

    module _ (equals : Obj → Obj → Option Bool) where
      -- The last round of the walk of putObject. getMetaNode creates the MetaNode if it is null.
      pub put_here : Obj → List ℕ → Node → List ℕ → Option (Node × PutOutcome Obj)
      put_here o parent_i n set =
          let m = meta_or_new (value n) in
          let m' : MetaNode Obj = record m { o_obj = some o; c_cbs = drop_dead live m.c_cbs } in
          let cbs = add_to_callback_set live (add_to_callback_set live set parent_i) m.c_cbs in
          let write : Node × PutOutcome Obj = (put_value n (some m'), written m.o_obj cbs) in
          elim m.o_obj [
            | none ↦ some write
            | some old ↦ (equals old o >>= λ same. if same then some (n, identical) else some write)
          ]

      unfoldable pub put_walk :
          Obj → List ℕ → Node → List Bytes → List ℕ → Option (Node × PutOutcome Obj)
      put_walk o parent_i n [] set = put_here o parent_i n set
      put_walk o parent_i n (k ∷ ks) set =
          let set' = add_to_callback_set live set (a_cbs_of (value n)) in
          put_walk o (i_cbs_of (value n)) (child_or_new n k) ks set' >>= λ r.
          some (put_back (prune_a n) k (is_empty ks) r)

      -- putObject, with the calls of onUpdated that it makes; `name` is the tree's name.
      unfoldable pub put_object :
          Bytes → Node → Bytes → Obj → Option (Node × List (Notification Obj))
      put_object name root path o = do
        valid ← valid_obj_path path
        if not valid then some (root, []) else do
          dot ← convert_to_dot_path path
          r ← put_walk o [] root (tokens dot) []
          some (r.0, updates name path o r.1)

    abbrev pub deletions : Bytes → Bytes → DelOutcome Obj → List (Notification Obj)
    deletions name path absent = []
    deletions name path (removed old set cleaning) = map (λ cb. deleted cb name path old) set

    -- delObject, with the calls of onDeleted that it makes. They run between the removal and the
    -- cleaning loop; a callback is taken to leave the tree alone meanwhile.
    unfoldable pub del_object : Bytes → Node → Bytes → Option (Node × List (Notification Obj))
    del_object name root path = do
      valid ← valid_obj_path path
      if not valid then some (root, []) else do
        dot ← convert_to_dot_path path
        let r = del_walk [] root (tokens dot) []
        some (r.0, deletions name path r.1)
