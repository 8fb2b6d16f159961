-- ===== src/Client/Cohab/Tests.antt =====
-- Tests of a session in the process of its server, on a tree of numbers.
use objxp.Common.{
  ℕ, ◌≡◌, ◌↔◌, refl, Bool, true, false, ◌&&◌, List, [], ◌∷◌, map, Option, none, some, Bytes, codes,
  bytes_eq, contains, replace, getlines, starts_with,
}
use objxp.Path.{
  obj_path_matches_cb_path, compare_tail, valid_obj_path, valid_cb_path, convert_to_dot_path,
  last_byte, has_double_slash, all_path_chars,
}
use objxp.PropertyTree.Rose.{Rose, rose, kid, nil, rose_tree, rose_get_path}
use objxp.PropertyTree.{assoc_get}
use objxp.Tree.{MetaNode, MetaTree, updated, deleted, mem, get_object, get_meta_node, drop_dead}
use objxp.Tree.Notify.{Distinct}
use objxp.Client.Cohab.{
  Cohab, forward_update_callback, forward_delete_callback, cohab_get_object, callbacks_at,
}
use objxp.Client.Cohab.Forward.{Returns, listens, forward-tells}
use objxp.Client.Cohab.Scope.{InScope, cohab_get_object-InScope}

abbrev T : MetaTree ℕ
T = rose_tree (Option (MetaNode ℕ))

-- The object 5 at /a.
abbrev root : Rose (Option (MetaNode ℕ))
root = rose none (
    kid (codes "a")
      (rose (some (record { c_cbs = 7 ∷ []; i_cbs = []; a_cbs = []; o_obj = some 5 })) nil) nil)

abbrev a : Bytes
a = codes "/a"

-- A session with the callbacks 3 at /a and 4 at /b.
abbrev session : Cohab
session = record {
  session_key = codes "k";
  subscribed_paths = a ∷ [];
  cb_map = (a, 3 ∷ []) ∷ (codes "/b", 4 ∷ []) ∷ [];
}

abbrev five : ℕ
five = 5

abbrev six : ℕ
six = 6

abbrev all_live : ℕ → Bool
all_live c = true

a-Returns : Returns a a
unfolding obj_path_matches_cb_path compare_tail valid_obj_path valid_cb_path bytes_eq last_byte
    has_double_slash all_path_chars starts_with contains
a-Returns = (true, refl)

b-Returns : Returns a (codes "/b")
unfolding obj_path_matches_cb_path compare_tail valid_obj_path valid_cb_path bytes_eq last_byte
    has_double_slash all_path_chars starts_with contains
b-Returns = (false, refl)

forward-tells_example :
    (s' : Cohab) × (cbs : List ℕ) × (forward_update_callback all_live session
        (codes "s")
        a
        six
        (some 5)
      ≡ some (s', map (λ cb. updated cb (codes "s") a six (some five)) cbs))
    × (forward_delete_callback all_live session (codes "s") a five
        ≡ some (s', map (λ cb. deleted cb (codes "s") a five) cbs))
    × Distinct cbs
    × ((c : ℕ) → mem c cbs ≡ (all_live c && listens a session.cb_map c))
    × ((path : Bytes)
        → drop_dead all_live (callbacks_at path s'.cb_map)
          ≡ drop_dead all_live (callbacks_at path session.cb_map))
forward-tells_example =
    forward-tells all_live session (codes "s") a six five (some five) (a-Returns, (b-Returns, tt))

object_there : get_object T root a ≡ some (some 5)
unfolding get_object get_meta_node valid_obj_path bytes_eq last_byte has_double_slash all_path_chars
    convert_to_dot_path replace contains getlines rose_get_path assoc_get
object_there = refl

cohab_get_object-InScope_example :
    (r : Option ℕ) × (cohab_get_object T session root a ≡ some r)
    × ((o : ℕ)
        → (r ≡ some o)
          ↔ ((◌≡◌ {A = Option ℕ} (some 5) (some o)) × InScope a session.subscribed_paths))
cohab_get_object-InScope_example =
    cohab_get_object-InScope T session root a (some 5) (a-Returns, tt) object_there
