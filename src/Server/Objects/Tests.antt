-- ===== src/Server/Objects/Tests.antt =====
-- Tests of a session of the server of src/ObexServer.cpp, on a tree of numbers.
use objxp.Common.{
  ℕ, ◌≡◌, refl, Bool, true, false, ◌==◌, List, [], ◌∷◌, Option, none, some, Bytes, codes, bytes_eq,
  if◌then◌else◌,
}
use objxp.PropertyTree.Rose.{Rose, rose, kid, nil, rose_tree}
use objxp.Path.{valid_obj_path, last_byte, has_double_slash, all_path_chars}
use objxp.MsgIo.Transaction.{dod_opt}
use objxp.Timer.{Time, time_sub, time_lt}
use objxp.Tree.{MetaNode, MetaTree, Notification, get_object}
use objxp.Tree.Objects.{Stores}
use objxp.Server.{del_msg}
use objxp.Server.Objects.{
  ServerSession, proc_paths, dod_paths, handle_put_object, destroy_session, server_enq_msg,
  disconnect_session, unregister_paths,
}
use objxp.Server.Objects.Dod.{Valid, deleted_after, handle_put_object-destroy_session}

abbrev T : MetaTree ℕ
T = rose_tree (Option (MetaNode ℕ))

abbrev root : Rose (Option (MetaNode ℕ))
root = rose none (
    kid (codes "a")
      (rose (some (record { c_cbs = 7 ∷ []; i_cbs = []; a_cbs = []; o_obj = some 5 })) nil) nil)

abbrev start : Time
start = record { sec = 100; nsec = 0 }

-- A session with the object 3 at /b to delete, and a queue of two messages.
abbrev session : ServerSession ℕ
session = record {
  session_name = codes "c-1";
  is_open = true;
  cb_paths = [];
  dod_map = (codes "/b", 3) ∷ [];
  last_deq = start;
  queue = del_msg (codes "/x") ∷ del_msg (codes "/y") ∷ [];
}

abbrev all_live : ℕ → Bool
all_live c = true

abbrev equals : ℕ → ℕ → Option Bool
equals a b = some (a == b)

a-valid : valid_obj_path (codes "/a") ≡ some true
unfolding valid_obj_path bytes_eq last_byte has_double_slash all_path_chars
a-valid = refl

own-Valid : Valid (proc_paths session.session_name)
unfolding valid_obj_path bytes_eq last_byte has_double_slash all_path_chars
own-Valid = (refl, (refl, (refl, tt)))

recorded-Valid : Valid (dod_paths all_live session.dod_map)
unfolding dod_paths valid_obj_path bytes_eq last_byte has_double_slash all_path_chars
recorded-Valid = (refl, tt)

handle_put_object-destroy_session_example :
    (root' : Rose (Option (MetaNode ℕ))) × (s' : ServerSession ℕ) × (notes : List (Notification ℕ))
    × (r : Rose (Option (MetaNode ℕ)) × List (Notification ℕ)) × (handle_put_object T all_live
          equals all_live
          (codes "db")
          root
          session
          (codes "/a")
          6
          dod_opt
        ≡ some (root', s', notes))
    × Stores T all_live equals root root' (codes "/a") 6 notes
    × (destroy_session T all_live all_live (codes "db") root' s' ≡ some r)
    × ((q : Bytes)
        → valid_obj_path q ≡ some true
        → get_object T r.0 q ≡ (
            if deleted_after T all_live equals all_live all_live session (codes "/a") 6 dod_opt q
            then some none
            else get_object T root' q))
handle_put_object-destroy_session_example =
    handle_put_object-destroy_session T all_live equals all_live all_live (codes "db") root session
      (codes "/a") 6 dod_opt (λ x e. e) a-valid (λ old e. (old == 6, refl)) own-Valid recorded-Valid

-- A session whose queue is too long and from which nothing was taken for ten seconds is
-- disconnected.
enq_timed_out :
    server_enq_msg T
      (λ c. c)
      1
      10
      (record { sec = 110; nsec = 5 })
      7
      root
      session
      (del_msg (codes "/z"))
    ≡ some (root, record session { is_open = false })
unfolding server_enq_msg disconnect_session unregister_paths time_sub time_lt
enq_timed_out = refl
