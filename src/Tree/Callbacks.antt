-- ===== src/Tree/Callbacks.antt =====
-- Registration of callbacks and the searches of the tree: the callback operations and find of
-- src/ObexTree.cpp. `none` is an exception or a failed assertion.
pub mod Insert
pub mod PutPath
pub mod Register
use objxp.Common.{
  ℕ, zero, suc, ◌≡◌, refl, Bool, true, false, not, ◌&&◌, ◌||◌, List, [], ◌∷◌, ◌++◌, Option, none,
  some, Bytes, codes, bytes_eq, is_empty, drop, if◌then◌else◌, ◌>>=◌,
}
use objxp.PropertyTree.{PropertyTree, assoc_get}
use objxp.Path.{
  CallbackType, current_node_only, immediate_children, all_descendants, valid_obj_path,
  valid_cb_path, convert_to_dot_path, convert_to_slash_path, parse_path,
}
use objxp.Path.Convert.{tokens}
use objxp.Tree.{
  MetaNode, MetaTree, empty_meta, map_insert, map_erase, get_meta_node, meta_or_new, obj_of,
}

-- The maps of a MetaNode, by the kind of callback path.
pub add_callback : {Obj : Type 0} → (ℕ → ℕ) → CallbackType → ℕ → MetaNode Obj → MetaNode Obj
add_callback address current_node_only cb m = record m { c_cbs = map_insert address cb m.c_cbs }
add_callback address immediate_children cb m = record m { i_cbs = map_insert address cb m.i_cbs }
add_callback address all_descendants cb m = record m { a_cbs = map_insert address cb m.a_cbs }

pub erase_callback : {Obj : Type 0} → (ℕ → ℕ) → CallbackType → ℕ → MetaNode Obj → MetaNode Obj
erase_callback address current_node_only cb m = record m {
  c_cbs = map_erase address (address cb) m.c_cbs;
}
erase_callback address immediate_children cb m = record m {
  i_cbs = map_erase address (address cb) m.i_cbs;
}
erase_callback address all_descendants cb m = record m {
  a_cbs = map_erase address (address cb) m.a_cbs;
}

-- dotPath.empty() ? key : dotPath + "." + key
abbrev pub child_path : Bytes → Bytes → Bytes
child_path dot key = if is_empty dot then key else dot ++ b'.' ∷ key

-- std::set<String>::insert.
pub path_insert : Bytes → List Bytes → List Bytes
path_insert p [] = p ∷ []
path_insert p (q ∷ l) = if bytes_eq q p then q ∷ l else q ∷ path_insert p l

-- std::map::insert, which keeps the entry of a key that is there.
unfoldable pub object_insert :
    {Obj : Type 0} → Bytes → Obj → List (Bytes × Obj) → List (Bytes × Obj)
object_insert k o l = elim (assoc_get k l) [ none ↦ l ++ ((k, o) ∷ []) | some o' ↦ l ]

module _ {Obj : Type 0} (T : MetaTree Obj) where
  open T use {Node, value, children, height, get_path, put_path}

  -- A path is put in the set if its node has an object.
  add_found : Bytes → Option Obj → List Bytes → Option (List Bytes)
  add_found dot none set = some set
  add_found dot (some o) set = do slash ← convert_to_slash_path dot; some (path_insert slash set)

  -- The loop over the children of a node; `below` searches a child and is passed on.
  search_children :
      (Bytes → Node → List Bytes → Option (List Bytes))
      → Bytes
      → List (Bytes × Node)
      → List Bytes
      → Option (List Bytes)
  search_children below dot [] set = some set
  search_children below dot ((key, c) ∷ l) set = do
    set' ← add_found (child_path dot key) (obj_of T (value c)) set
    set'' ← below (child_path dot key) c set'
    search_children below dot l set''

  -- searchObjects, on fuel for the depth of the tree.
  pub search_objects : ℕ → Bool → Bytes → Node → List Bytes → Option (List Bytes)
  search_objects zero recursive dot n set = some set
  search_objects (suc fuel) recursive dot n set =
      let below : Bytes → Node → List Bytes → Option (List Bytes) =
        λ d c s. if recursive then search_objects fuel recursive d c s else some s in
      search_children below dot (children n) set

  -- putMetaNode(dotPath, metaNode)
  pub put_meta_node : Node → Bytes → MetaNode Obj → Node
  put_meta_node root dot m =
      if is_empty dot then T.put_value root (some m) else put_path none root (tokens dot) (some m)

  -- The paths of the objects that a new callback is for; get_child at an empty path is the node
  -- itself.
  objects_under : CallbackType → Node → Bytes → MetaNode Obj → Option (List Bytes)
  objects_under current_node_only root dot m = elim m.o_obj [
    | none ↦ some []
    | some o ↦ do slash ← convert_to_slash_path dot; some (slash ∷ [])
  ]
  objects_under immediate_children root dot m = do
    n ← get_path root (tokens dot)
    search_objects (suc (height n)) false dot n []
  objects_under all_descendants root dot m = do
    n ← get_path root (tokens dot)
    search_objects (suc (height n)) true dot n []

  -- registerCallbackAndGetObjSet; `want` says that a path set was passed.
  pub register_callback_and_get_obj_set :
      (ℕ → ℕ) → Bool → Node → Bytes → ℕ → Option (Node × List Bytes)
  register_callback_and_get_obj_set address want root cb_path cb = do
    valid ← valid_cb_path cb_path
    if not valid then some (root, []) else do
      parsed ← parse_path cb_path
      let m = meta_or_new T (get_meta_node T root parsed.1)
      let root' = put_meta_node root parsed.1 (add_callback address parsed.0 cb m)
      set ← if want then objects_under parsed.0 root' parsed.1 m else some []
      some (root', set)

  pub register_callback : (ℕ → ℕ) → Node → Bytes → ℕ → Option Node
  register_callback address root cb_path cb = do
    r ← register_callback_and_get_obj_set address false root cb_path cb
    some r.0

  -- The null pointer is `none`.
  pub unregister_callback : (ℕ → ℕ) → Node → Bytes → Option ℕ → Option Node
  unregister_callback address root cb_path none = do valid ← valid_cb_path cb_path; some root
  unregister_callback address root cb_path (some cb) = do
    valid ← valid_cb_path cb_path
    if not valid then some root else do
      parsed ← parse_path cb_path
      elim (get_meta_node T root parsed.1) [
        | none ↦ some root
        | some m ↦ some (put_meta_node root parsed.1 (erase_callback address parsed.0 cb m))
      ]

  module _ (match_function : Option (Bytes → Bytes → Bool)) (match_str : Bytes) where
    abbrev pub key_matches : Bytes → Bool
    key_matches key =
        bytes_eq match_str (codes ".*")
        || bytes_eq key match_str
        || elim match_function [ none ↦ false | some g ↦ g key match_str ]

    -- An object goes into the result if its key matches, under its path with no first slash.
    unfoldable pub find_one :
        Bytes → Bytes → Option Obj → List (Bytes × Obj) → Option (List (Bytes × Obj))
    find_one key dot none res = some res
    find_one key dot (some o) res =
        if key_matches key
        then (do slash ← convert_to_slash_path dot; some (object_insert (drop 1 slash) o res))
        else some res

    unfoldable pub find_children :
        (Bytes → Node → List (Bytes × Obj) → Option (List (Bytes × Obj)))
        → Bytes
        → List (Bytes × Node)
        → List (Bytes × Obj)
        → Option (List (Bytes × Obj))
    find_children below pfx [] res = some res
    find_children below pfx ((key, c) ∷ l) res = do
      res' ← find_one key (child_path pfx key) (obj_of T (value c)) res
      res'' ← below (child_path pfx key) c res'
      find_children below pfx l res''

    -- findObjects, on fuel for the depth of the tree.
    unfoldable pub find_objects :
        ℕ → Bool → Bytes → Node → List (Bytes × Obj) → Option (List (Bytes × Obj))
    find_objects zero recursive pfx n res = some res
    find_objects (suc fuel) recursive pfx n res =
        let below : Bytes → Node → List (Bytes × Obj) → Option (List (Bytes × Obj)) =
          λ d c s. if recursive then find_objects fuel recursive d c s else some s in
        find_children below pfx (children n) res

    -- find; the null result is the inner `none`.
    unfoldable pub find : Node → Bytes → Bool → Option (Option (List (Bytes × Obj)))
    find root dir recursive = do
      valid ← valid_obj_path dir
      if not valid then some none else do
        dot ← convert_to_dot_path dir
        elim (get_path root (tokens dot)) [
          | none ↦ some none
          | some n ↦ do r ← find_objects (suc (height n)) recursive [] n []; some (some r)
        ]
