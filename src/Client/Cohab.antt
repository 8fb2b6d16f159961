-- ===== src/Client/Cohab.antt =====
-- ObexCohabClientSession of src/ObexClient.cpp and include/ObexClient.h: a session on the tree of a
-- server in the same process. The session is the callback `me` of that tree. A set
-- or map is walked in the order of insertion. `none` is an exception or a failed assertion. The call
-- of onSubscriptionCompleted that ends subscribe is left out.
pub mod Forward
pub mod Scope
mod Tests
use objxp.Common.{
  ℕ, ◌≡◌, Bool, true, false, not, List, [], ◌∷◌, ◌++◌, map, Option, none, some, Bytes, codes,
  bytes_eq, is_empty, getlines, if◌then◌else◌, ◌>>=◌,
}
use objxp.Path.{valid_cb_path, obj_path_matches_cb_path}
use objxp.PropertyTree.{assoc_get, assoc_set}
use objxp.Tree.{
  MetaTree, Notification, updated, deleted, map_insert, map_erase, add_to_callback_set, drop_dead,
  get_object,
}
use objxp.Tree.Callbacks.{path_insert, register_callback_and_get_obj_set, unregister_callback, find}

pub record Cohab : Type 0 where
  pub session_key : Bytes
  pub subscribed_paths : List Bytes
  pub cb_map : List (Bytes × List ℕ)

-- The loop over the subscribed paths, which stops at the first that matches.
unfoldable pub in_scope : Bytes → List Bytes → Option Bool
in_scope p [] = some false
in_scope p (c ∷ cs) = do
  hit ← obj_path_matches_cb_path p c
  if hit then some true else in_scope p cs

abbrev pub callbacks_at : Bytes → List (Bytes × List ℕ) → List ℕ
callbacks_at path l = elim (assoc_get path l) [ none ↦ [] | some m ↦ m ]

-- registerCallback and unregisterCallback of the session.
unfoldable pub cohab_register_callback : (ℕ → ℕ) → Cohab → Bytes → ℕ → Option Cohab
cohab_register_callback address s path cb = do
  valid ← valid_cb_path path
  if not valid
      then some s
      else some (record s {
        cb_map = assoc_set path (map_insert address cb (callbacks_at path s.cb_map)) s.cb_map;
      })

unfoldable pub cohab_unregister_callback : (ℕ → ℕ) → Cohab → Bytes → ℕ → Option Cohab
cohab_unregister_callback address s path cb = do
  valid ← valid_cb_path path
  if not valid then some s else elim (assoc_get path s.cb_map) [
    | none ↦ some s
    | some m ↦
        some (record s { cb_map = assoc_set path (map_erase address (address cb) m) s.cb_map })
  ]

module _ {Obj : Type 0} (T : MetaTree Obj) where
  open T use {Node}

  unfoldable pub cohab_get_object : Cohab → Node → Bytes → Option (Option Obj)
  cohab_get_object s root p =
      if is_empty s.subscribed_paths
      then some none
      else do hit ← in_scope p s.subscribed_paths; if hit then get_object T root p else some none

  abbrev pub insert_paths : List Bytes → List Bytes → List Bytes
  insert_paths set [] = set
  insert_paths set (p ∷ ps) = insert_paths (path_insert p set) ps

  -- The loop of subscribe over the callback paths.
  unfoldable pub register_all :
      (ℕ → ℕ)
      → ℕ
      → Node
      → List Bytes
      → List Bytes
      → List Bytes
      → Option (Node × List Bytes × List Bytes)
  register_all address me root [] syncs paths = some (root, syncs, paths)
  register_all address me root (c ∷ cs) syncs paths = do
    r ← register_callback_and_get_obj_set T address true root c me
    register_all address me r.0 cs (insert_paths syncs r.1) (path_insert c paths)

  unfoldable pub unregister_all : (ℕ → ℕ) → ℕ → Node → List Bytes → Option Node
  unregister_all address me root [] = some root
  unregister_all address me root (c ∷ cs) = do
    r ← unregister_callback T address root c (some me)
    unregister_all address me r cs

  -- disconnect, as far as the tree and the session go.
  unfoldable pub cohab_disconnect : (ℕ → ℕ) → ℕ → Node → Cohab → Option (Node × Cohab)
  cohab_disconnect address me root s = do
    r ← unregister_all address me root s.subscribed_paths
    some (r, record s { subscribed_paths = []; cb_map = [] })

  -- (dirPath == "/" ? "" : dirPath) + "/" + key
  abbrev pub entry_path : Bytes → Bytes → Bytes
  entry_path dir key = (if bytes_eq dir (codes "/") then [] else dir) ++ (b'/' ∷ key)

  -- The loop that removes what is not in scope.
  unfoldable pub keep_in_scope :
      Bytes → List Bytes → List (Bytes × Obj) → Option (List (Bytes × Obj))
  keep_in_scope dir paths [] = some []
  keep_in_scope dir paths ((key, o) ∷ l) = do
    hit ← in_scope (entry_path dir key) paths
    rest ← keep_in_scope dir paths l
    some (if hit then (key, o) ∷ rest else rest)

  abbrev pub null_if_empty : List (Bytes × Obj) → Option (List (Bytes × Obj))
  null_if_empty l = if is_empty l then none else some l

  -- find; the null result is the inner `none`.
  unfoldable pub cohab_find :
      Option (Bytes → Bytes → Bool)
      → Bytes
      → Cohab
      → Node
      → Bytes
      → Bool
      → Option (Option (List (Bytes × Obj)))
  cohab_find match_function match_str s root dir recursive =
      if is_empty s.subscribed_paths then some none else do
        found ← find T match_function match_str root dir recursive
        elim found [
          | none ↦ some none
          | some l ↦ do kept ← keep_in_scope dir s.subscribed_paths l; some (null_if_empty kept)
        ]

module _ (live : ℕ → Bool) where
  -- getCallbackSet, with the maps that addToCallbackSet leaves.
  unfoldable pub get_callback_set :
      Bytes → List (Bytes × List ℕ) → List ℕ → Option (List ℕ × List (Bytes × List ℕ))
  get_callback_set p [] set = some (set, [])
  get_callback_set p ((path, m) ∷ l) set = do
    hit ← obj_path_matches_cb_path p path
    r ← get_callback_set p l (if hit then add_to_callback_set live set m else set)
    some (r.0, (path, if hit then drop_dead live m else m) ∷ r.1)

  module _ {Obj : Type 0} where
    -- forwardUpdateCallback, which onUpdated calls.
    unfoldable pub forward_update_callback :
        Cohab → Bytes → Bytes → Obj → Option Obj → Option (Cohab × List (Notification Obj))
    forward_update_callback s cb_src p new old = do
      r ← get_callback_set p s.cb_map []
      some (record s { cb_map = r.1 }, map (λ cb. updated cb cb_src p new old) r.0)

    -- forwardDeleteCallback, which onDeleted calls.
    unfoldable pub forward_delete_callback :
        Cohab → Bytes → Bytes → Obj → Option (Cohab × List (Notification Obj))
    forward_delete_callback s cb_src p old = do
      r ← get_callback_set p s.cb_map []
      some (record s { cb_map = r.1 }, map (λ cb. deleted cb cb_src p old) r.0)

    module _ (T : MetaTree Obj) where
      open T use {Node}

      -- The loop over the objects that are there already.
      unfoldable pub sync_all :
          Bytes → Node → Cohab → List Bytes → Option (Cohab × List (Notification Obj))
      sync_all name root s [] = some (s, [])
      sync_all name root s (p ∷ ps) = do
        found ← get_object T root p
        o ← found
        r ← forward_update_callback s name p o none
        t ← sync_all name root r.0 ps
        some (t.0, r.1 ++ t.1)

      -- subscribe; `name` is the name of the tree.
      unfoldable pub subscribe :
          (ℕ → ℕ)
          → ℕ
          → Bytes
          → Node
          → Cohab
          → Bytes
          → Option (Node × Cohab × List (Notification Obj))
      subscribe address me name root s cb_paths = do
        r ← register_all T address me root (getlines b',' cb_paths) [] s.subscribed_paths
        t ← sync_all name r.0 (record s { subscribed_paths = r.2 }) r.1
        some (r.0, t.0, t.1)
