-- ===== src/Tree/Tests.antt =====
-- Tests of src/ObexTree.cpp on a tree of numbers with a callback.
use objxp.Common.{
  ℕ, ◌≡◌, refl, Bool, true, false, ◌&&◌, ◌==◌, List, [], ◌∷◌, map, Option, none, some, arith, Bytes,
  codes, bytes_eq, contains, replace, getlines,
}
use objxp.PropertyTree.Rose.{Rose, rose, kid, nil, rose_tree, rose_get_path}
use objxp.PropertyTree.{assoc_get, assoc_set}
use objxp.Path.{valid_obj_path, convert_to_dot_path, last_byte, has_double_slash, all_path_chars}
use objxp.Path.Convert.{tokens}
use objxp.Tree.{
  MetaNode, MetaTree, Notification, updated, deleted, mem, get_object, put_object, del_object,
  get_meta_node, del_walk, del_here, add_to_callback_set, set_insert, map_insert, has_address,
  update_meta, prune_a, clean_up, is_trivial, drop_dead, prune_i, put_walk, put_here, child_or_new,
}
use objxp.Tree.Objects.{get_object-del_object, get_object-put_object, Stores}
use objxp.Tree.Told.{del_object-notifies, put_object-notifies}
use objxp.Tree.Notify.{Distinct, registered_from}
use objxp.Tree.Observe.{observe}
use objxp.Tree.Registered.{live_callbacks, live_callbacks-del_object, live_callbacks-put_object}

abbrev T : MetaTree ℕ
T = rose_tree (Option (MetaNode ℕ))

abbrev all_live : ℕ → Bool
all_live c = true

abbrev equals : ℕ → ℕ → Option Bool
equals a b = some (a == b)

-- The object 5 at /a with the callback 7, and the callback 8 for all below the root.
abbrev root : Rose (Option (MetaNode ℕ))
root = rose (some (record { c_cbs = []; i_cbs = []; a_cbs = 8 ∷ []; o_obj = none })) (
    kid (codes "a")
      (rose (some (record { c_cbs = 7 ∷ []; i_cbs = []; a_cbs = []; o_obj = some 5 })) nil) nil)

abbrev a : Bytes
a = codes "/a"

abbrev b : Bytes
b = codes "/b/c"

a-valid : valid_obj_path a ≡ some true
unfolding valid_obj_path bytes_eq last_byte has_double_slash all_path_chars
a-valid = refl

b-valid : valid_obj_path b ≡ some true
unfolding valid_obj_path bytes_eq last_byte has_double_slash all_path_chars
b-valid = refl

a-dotted : convert_to_dot_path a ≡ some (codes "a")
unfolding convert_to_dot_path contains replace
a-dotted = refl

a-holds : get_object T root a ≡ some (some 5)
unfolding get_object get_meta_node rose_get_path getlines assoc_get bytes_eq
a-holds = rw (a-valid, a-dotted) refl

differs : (old : ℕ) → get_object T root a ≡ some (some old) → equals old 6 ≡ some false
differs old e = ground (arith, a-holds)

deletes :
    del_object T all_live (codes "db") root a
    ≡ some (
      (del_walk T all_live [] root (codes "a" ∷ []) []).0,
      deleted 8 (codes "db") a 5 ∷ deleted 7 (codes "db") a 5 ∷ [],
    )
unfolding del_object getlines del_walk del_here add_to_callback_set set_insert mem update_meta
    prune_a bytes_eq assoc_get clean_up is_trivial drop_dead prune_i
deletes = rw (a-valid, a-dotted) refl

abbrev root_after : Rose (Option (MetaNode ℕ))
root_after = rose (some (record { c_cbs = []; i_cbs = []; a_cbs = 8 ∷ []; o_obj = none })) (
    kid (codes "a")
      (rose (some (record { c_cbs = 7 ∷ []; i_cbs = []; a_cbs = []; o_obj = some 6 })) nil) nil)

abbrev told : List (Notification ℕ)
told = updated 8 (codes "db") a 6 (some 5) ∷ updated 7 (codes "db") a 6 (some 5) ∷ []

puts : put_object T all_live equals (codes "db") root a 6 ≡ some (root_after, told)
unfolding put_object getlines put_walk put_here add_to_callback_set set_insert mem update_meta
    prune_a bytes_eq assoc_get assoc_set child_or_new drop_dead prune_i
puts = rw (a-valid, a-dotted) refl

get_object-put_object_example :
    (root' : Rose (Option (MetaNode ℕ))) × (notes : List (Notification ℕ)) × (put_object T all_live
        equals
        (codes "db")
        root
        a
        6
      ≡ some (root', notes))
    × Stores T all_live equals root root' a 6 notes
    × (get_object T root' b ≡ get_object T root b)
get_object-put_object_example =
    get_object-put_object T all_live equals (codes "db") root a b 6 a-valid b-valid (ground arith)
      (λ old e. (false, differs old e))

get_object-del_object_example :
    (root' : Rose (Option (MetaNode ℕ))) × (notes : List (Notification ℕ)) × (del_object T all_live
        (codes "db")
        root
        a
      ≡ some (root', notes))
    × (get_object T root' a ≡ some none)
    × (get_object T root' b ≡ get_object T root b)
get_object-del_object_example =
    get_object-del_object T all_live (codes "db") root a b a-valid b-valid (ground arith)

put_object-notifies_example :
    (root' : Rose (Option (MetaNode ℕ))) × (before : Option ℕ) × (cbs : List ℕ) × (get_object T root
        a
      ≡ some before)
    × (put_object T all_live equals (codes "db") root a 6
        ≡ some (root', map (λ c. updated c (codes "db") a 6 before) cbs))
    × Distinct cbs
    × ((c : ℕ)
        → mem c cbs ≡ (all_live c && registered_from T all_live [] root (tokens (codes "a")) c))
put_object-notifies_example =
    put_object-notifies T all_live equals (codes "db") root a (codes "a") 6 a-valid a-dotted differs

del_object-notifies_example :
    (root' : Rose (Option (MetaNode ℕ))) × (cbs : List ℕ) × (del_object T all_live
        (codes "db")
        root
        a
      ≡ some (root', map (λ c. deleted c (codes "db") a 5) cbs))
    × Distinct cbs
    × ((c : ℕ)
        → mem c cbs ≡ (all_live c && registered_from T all_live [] root (tokens (codes "a")) c))
del_object-notifies_example =
    del_object-notifies T all_live (codes "db") root a (codes "a") 5 a-valid a-dotted a-holds

-- The entry of a callback 7 that is gone keeps out a callback 9 that has got its address.
reused_address : map_insert (λ c. 0) 9 (7 ∷ []) ≡ 7 ∷ []
unfolding map_insert has_address
reused_address = refl

live_callbacks-del_object_example :
    observe T (live_callbacks T all_live) (del_walk T all_live [] root (codes "a" ∷ []) []).0 []
    ≡ observe T (live_callbacks T all_live) root []
live_callbacks-del_object_example =
    live_callbacks-del_object T all_live (codes "db") root _ a _ deletes []

live_callbacks-put_object_example :
    observe T (live_callbacks T all_live) root_after (codes "a" ∷ [])
    ≡ observe T (live_callbacks T all_live) root (codes "a" ∷ [])
live_callbacks-put_object_example =
    live_callbacks-put_object T all_live equals (codes "db") root root_after a 6 told puts
      (codes "a" ∷ [])
