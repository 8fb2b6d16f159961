-- ===== src/Client/Remote/Tests.antt =====
-- Tests of a remote session of src/ObexClient.cpp.
use objxp.Common.{
  ℕ, ◌≢◌, Bool, ◌==◌, Option, Bytes, map, ◌≡◌, refl, ap, true, false, List, [], ◌∷◌, ◌++◌, none,
  some, codes, bytes_eq, length, is_empty, getlines, All, arith, if◌then◌else◌,
}
use objxp.PropertyTree.Rose.{Rose, rose, kid, nil, rose_tree}
use objxp.Tree.{MetaNode, MetaTree, Notification, get_object}
use objxp.Server.Transaction.{Element, element_put, element_del, told_of}
use objxp.Server.Transaction.Once.{element_path, element_change, DistinctPaths, IsAmong}
use objxp.Server.Transaction.Holds.{Holds}
use objxp.Client.Remote.Received.{remote_handle_transaction-Holds}
use objxp.Path.{valid_obj_path, valid_cb_path, last_byte, has_double_slash, all_path_chars}
use objxp.MsgIo.Transaction.{has_path, digits, element_text, transaction_text, parse_transaction}
use objxp.MsgIo.ElementText.{Fresh}
use objxp.Client.Remote.{
  remote_handle_transaction, Remote, put_object_msg, subscribe_msg, x_action_msg, all_valid,
  remote_put_object, remote_subscribe, remote_begin_transaction, remote_end_transaction,
  remote_abort_transaction,
}
use objxp.Client.Remote.Transact.{
  RemoteCall, call_put, call_del, remote_calls, elements_of, IsCall, remote_transaction,
}

abbrev session : Remote
session = record { x_action = none; messages = subscribe_msg (codes "/") ∷ []; notifies = false }

abbrev calls : List RemoteCall
calls = call_put (codes "/a") (codes "T") (codes "1") true ∷ call_del (codes "/b") ∷ []

calls-IsCall : All IsCall calls
unfolding valid_obj_path bytes_eq last_byte has_double_slash all_path_chars
calls-IsCall = ((refl, ((λ e. cc), tt), omega arith), (refl, tt))

calls-Fresh : Fresh [] (elements_of calls)
unfolding has_path bytes_eq
calls-Fresh = (refl, (refl, tt))

calls_text : transaction_text (elements_of calls) ≡ codes "{put,1,/a,T,dod=1}{del,/b}"
unfolding transaction_text element_text digits
calls_text = refl

remote_transaction_example :
    (r' r'' : Remote) × (remote_begin_transaction session ≡ some r')
    × (remote_calls r' calls ≡ some r'')
    × (r''.messages ≡ session.messages)
    × (remote_abort_transaction r'' ≡ some session)
    × (remote_end_transaction r''
        ≡ some (record session {
          messages =
              session.messages
              ++ (if is_empty calls then [] else x_action_msg (elements_of calls) ∷ []);
        }))
    × (parse_transaction (transaction_text (elements_of calls)) ≡ some (elements_of calls))
remote_transaction_example =
    remote_transaction session calls refl calls-IsCall calls-Fresh
      (omega (arith, ap length calls_text))

-- Without a transaction an object is sent at once, and at a path that is not valid nothing is.
put_at_once :
    remote_put_object session (codes "/a") (codes "T") (codes "1") false
    ≡ some (record session {
      messages = session.messages ++ (put_object_msg (codes "/a") (codes "T") (codes "1") [] ∷ []);
    })
unfolding remote_put_object valid_obj_path bytes_eq last_byte has_double_slash all_path_chars
put_at_once = refl

subscribe_none : remote_subscribe session (codes "/a,b") true ≡ some session
unfolding remote_subscribe all_valid getlines valid_cb_path valid_obj_path bytes_eq last_byte
    has_double_slash all_path_chars
subscribe_none = refl

abbrev T : MetaTree ℕ
T = rose_tree (Option (MetaNode ℕ))

abbrev all_live : ℕ → Bool
all_live c = true

abbrev equals : ℕ → ℕ → Option Bool
equals a b = some (a == b)

-- The object 5 at /a, and the callback 7 for it.
abbrev mirror : Rose (Option (MetaNode ℕ))
mirror = rose none (
    kid (codes "a")
      (rose (some (record { c_cbs = 7 ∷ []; i_cbs = []; a_cbs = []; o_obj = some 5 })) nil) nil)

abbrev elements : List (Element ℕ)
elements = element_put (codes "/a") 6 [] ∷ element_del (codes "/b") ∷ []

elements-valid : All (λ e. valid_obj_path (element_path e) ≡ some true) elements
unfolding valid_obj_path bytes_eq last_byte has_double_slash all_path_chars
elements-valid = (refl, (refl, tt))

elements-DistinctPaths : DistinctPaths elements
elements-DistinctPaths = ground arith

remote_handle_transaction-Holds_example :
    (root' : Rose (Option (MetaNode ℕ))) × (notes : List (Notification ℕ))
    × (remote_handle_transaction T all_live equals (codes "key") mirror elements
        ≡ some (root', notes))
    × All (Holds T all_live equals root') elements
    × All (IsAmong (map element_change elements)) (map told_of notes)
    × ((q : Bytes)
        → valid_obj_path q ≡ some true
        → All (λ e. q ≢ element_path e) elements
        → get_object T root' q ≡ get_object T mirror q)
remote_handle_transaction-Holds_example =
    remote_handle_transaction-Holds T all_live equals (codes "key") mirror elements
      (λ x y. (x == y, refl)) elements-valid elements-DistinctPaths
