-- ===== src/Server/Transaction/Tests.antt =====
-- Tests of handleTransaction of src/ObexServer.cpp on a tree of numbers.
use objxp.Common.{
  ℕ, ◌≡◌, ◌≢◌, refl, inl, Bool, true, false, ◌==◌, List, [], ◌∷◌, ◌++◌, Option, none, some, arith,
  Bytes, codes, bytes_eq, contains, replace, getlines, All, In,
}
use objxp.PropertyTree.{assoc_get}
use objxp.PropertyTree.Rose.{Rose, rose, kid, nil, rose_tree, rose_get_path}
use objxp.Path.{valid_obj_path, convert_to_dot_path, last_byte, has_double_slash, all_path_chars}
use objxp.Path.Convert.{tokens}
use objxp.Tree.{MetaNode, MetaTree, mem, get_object, get_meta_node}
use objxp.Tree.Observe.{observe}
use objxp.Tree.Notify.{registered_from}
use objxp.Server.{Change, change_put, Server, put_msg, transaction_msg}
use objxp.Server.Open.{transaction_of}
use objxp.Server.Objects.{ServerSession}
use objxp.Server.Transaction.{Element, element_put, element_del, handle_transaction}
use objxp.Server.Transaction.Reach.{Differs}
use objxp.Server.Transaction.Once.{element_path, element_change, DistinctPaths}
use objxp.Server.Transaction.Holds.{Holds}
use objxp.Server.Transaction.Exact.{expected}
use objxp.Server.Transaction.Sends.{handle_transaction-sends, handle_transaction-reaches}

abbrev T : MetaTree ℕ
T = rose_tree (Option (MetaNode ℕ))

abbrev all_live : ℕ → Bool
all_live c = true

abbrev alive : ℕ → Bool
alive o = true

abbrev equals : ℕ → ℕ → Option Bool
equals a b = some (a == b)

-- The session 8 subscribes to everything, and the session 7 to /a, where the object 5 is.
abbrev root : Rose (Option (MetaNode ℕ))
root = rose (some (record { c_cbs = []; i_cbs = []; a_cbs = 8 ∷ []; o_obj = none })) (
    kid (codes "a")
      (rose (some (record { c_cbs = 7 ∷ []; i_cbs = []; a_cbs = []; o_obj = some 5 })) nil) nil)

abbrev sender : ServerSession ℕ
sender = record {
  session_name = codes "c-1";
  is_open = true;
  cb_paths = [];
  dod_map = [];
  last_deq = record { sec = 0; nsec = 0 };
  queue = [];
}

abbrev server : Server ℕ
server = record {
  sessions = λ i. record { x_action = none; sent = put_msg (codes "/x") i ∷ [] };
  xaction_in_progress = false;
  x_session_list = [];
}

abbrev elements : List (Element ℕ)
elements = element_put (codes "/a") 6 (codes "dod") ∷ element_del (codes "/b") ∷ []

elements-valid : All (λ e. valid_obj_path (element_path e) ≡ some true) elements
unfolding valid_obj_path bytes_eq last_byte has_double_slash all_path_chars
elements-valid = (refl, (refl, tt))

elements-DistinctPaths : DistinctPaths elements
elements-DistinctPaths = ground arith

-- The session 7 should be told of the put at /a alone.
expected_seven :
    expected T all_live equals (codes "db") root 7 elements ≡ change_put (codes "/a") 6 ∷ []
unfolding expected get_object valid_obj_path bytes_eq last_byte has_double_slash all_path_chars
    convert_to_dot_path contains replace get_meta_node rose_get_path getlines assoc_get observe mem
expected_seven = refl

handle_transaction-sends_example :
    (root' : Rose (Option (MetaNode ℕ))) × (sender' : ServerSession ℕ) × (s' : Server ℕ)
    × (handle_transaction T all_live equals alive (codes "db") root sender server elements
        ≡ some (root', sender', s'))
    × All (Holds T all_live equals root') elements
    × ((q : Bytes)
        → valid_obj_path q ≡ some true
        → All (λ e. q ≢ element_path e) elements
        → get_object T root' q ≡ get_object T root q)
    × (s'.x_session_list ≡ [])
    × (s'.xaction_in_progress ≡ false)
    × ((j : ℕ)
        → all_live j ≡ true
        → s'.sessions j ≡ record {
          x_action = none;
          sent =
              (server.sessions j).sent
              ++ transaction_of (expected T all_live equals (codes "db") root j elements);
        })
handle_transaction-sends_example =
    handle_transaction-sends T all_live equals alive (codes "db") root sender server elements
      (λ x y. (x == y, refl)) elements-valid elements-DistinctPaths refl (λ j. refl)

abbrev put_a : Element ℕ
put_a = element_put (codes "/a") 6 (codes "dod")

a-dotted : convert_to_dot_path (codes "/a") ≡ some (codes "a")
unfolding convert_to_dot_path contains replace
a-dotted = refl

a-holds : get_object T root (codes "/a") ≡ some (some 5)
unfolding get_object valid_obj_path bytes_eq last_byte has_double_slash all_path_chars
    convert_to_dot_path contains replace get_meta_node rose_get_path getlines assoc_get
a-holds = refl

put_a-Differs : Differs T all_live equals (codes "db") root put_a
put_a-Differs old e = ground (arith, a-holds)

a-registered : registered_from T all_live [] root (tokens (codes "a")) 7 ≡ true
unfolding observe rose_get_path getlines assoc_get bytes_eq mem
a-registered = refl

handle_transaction-reaches_example :
    (root' : Rose (Option (MetaNode ℕ))) × (sender' : ServerSession ℕ) × (s' : Server ℕ)
    × (changes : List (Change ℕ)) × (handle_transaction T all_live equals alive
          (codes "db")
          root
          sender
          server
          elements
        ≡ some (root', sender', s'))
    × In (element_change put_a) changes
    × ((s'.sessions 7).sent ≡ (server.sessions 7).sent ++ (transaction_msg changes ∷ []))
handle_transaction-reaches_example =
    handle_transaction-reaches T all_live equals alive (codes "db") root sender server elements
      put_a (codes "a") 7 (λ x y. (x == y, refl)) elements-valid elements-DistinctPaths refl
      (λ j. refl) (inl refl) a-dotted put_a-Differs refl a-registered
