-- ===== src/Server/Objects.antt =====
-- ObexServerSession of src/ObexServer.cpp and include/ObexServer.h on the tree of its server: put
-- objects and deletion on disconnect, subscriptions, and the end of the session. The session is
-- the callback `me` of the tree. `alive` says whether the weak pointer to an object still
-- locks. A map is walked in the order of insertion. `none` is an exception or a failed assertion.
pub mod Dod
mod Tests
use objxp.Common.{
  ℕ, ◌≡◌, Bool, true, false, not, ◌&&◌, List, [], ◌∷◌, ◌++◌, Option, none, some, Bytes, codes,
  bytes_eq, getlines, length, ltb, leb, if◌then◌else◌, ◌>>=◌,
}
use objxp.PropertyTree.{assoc_erase}
use objxp.MsgIo.Transaction.{dod_opt}
use objxp.Timer.{Time, time_sub}
use objxp.Tree.{MetaTree, Notification, get_object, put_object, del_object}
use objxp.Tree.Callbacks.{path_insert, register_callback_and_get_obj_set, unregister_callback}
use objxp.Server.{SessionMsg, put_msg}

-- `queue` is txMsgList_, and `is_open` says that the descriptor is open.
pub record ServerSession (Obj : Type 0) : Type 0 where
  pub session_name : Bytes
  pub is_open : Bool
  pub cb_paths : List Bytes
  pub dod_map : List (Bytes × Obj)
  pub last_deq : Time
  pub queue : List (SessionMsg Obj)

-- What MkYPath makes of YpProcSession__SID and of the paths below it.
abbrev pub proc_path : Bytes → Bytes
proc_path name = codes "/proc/session/" ++ name

abbrev pub proc_paths : Bytes → List Bytes
proc_paths name =
    proc_path name ∷ (proc_path name ++ codes "/cmd") ∷ (proc_path name ++ codes "/rsp") ∷ []

module _ {Obj : Type 0} where
  -- The loop that removes the entries of objects that are gone.
  unfoldable pub clean_dod : (Obj → Bool) → List (Bytes × Obj) → List (Bytes × Obj)
  clean_dod alive [] = []
  clean_dod alive ((p, o) ∷ l) =
      let rest = clean_dod alive l in if alive o then (p, o) ∷ rest else rest

  unfoldable pub register_dod : (Obj → Bool) → List (Bytes × Obj) → Bytes → Obj → List (Bytes × Obj)
  register_dod alive m path o = clean_dod alive (assoc_erase path m ++ ((path, o) ∷ []))

  -- deqMsg
  unfoldable pub server_deq_msg :
      Time → ServerSession Obj → ServerSession Obj × Option (SessionMsg Obj)
  server_deq_msg now s = elim s.queue [
    | [] ↦ (record s { last_deq = now }, none)
    | m ∷ q ↦ (record s { last_deq = now; queue = q }, some m)
  ]

  -- The paths of the loop of the destructor.
  unfoldable pub dod_paths : (Obj → Bool) → List (Bytes × Obj) → List Bytes
  dod_paths alive [] = []
  dod_paths alive ((p, o) ∷ l) = let rest = dod_paths alive l in if alive o then p ∷ rest else rest

module _ {Obj : Type 0} (T : MetaTree Obj) (address : ℕ → ℕ) where
  open T use {Node}

  unfoldable pub unregister_paths : ℕ → Node → List Bytes → Option Node
  unregister_paths me root [] = some root
  unregister_paths me root (c ∷ cs) = do
    r ← unregister_callback T address root c (some me)
    unregister_paths me r cs

  -- disconnectSession. The call of onDisconnected that follows is on_session_disconnected.
  unfoldable pub disconnect_session :
      ℕ → Node → ServerSession Obj → Option (Node × ServerSession Obj)
  disconnect_session me root s = do
    r ← unregister_paths me root s.cb_paths
    some (r, record s { is_open = false })

  module _ (msg_list_threshold msg_timeout : ℕ) where
    -- enqMsg; sendData takes messages from the queue by deqMsg.
    unfoldable pub server_enq_msg :
        Time → ℕ → Node → ServerSession Obj → SessionMsg Obj → Option (Node × ServerSession Obj)
    server_enq_msg now me root s m =
        let elapsed = time_sub now s.last_deq in
        if ltb msg_list_threshold (length s.queue) && leb msg_timeout elapsed.sec
        then disconnect_session me root s
        else some (root, record s { queue = s.queue ++ (m ∷ []) })

    abbrev pub insert_found : List Bytes → List Bytes → List Bytes
    insert_found set [] = set
    insert_found set (p ∷ ps) = insert_found (path_insert p set) ps

    -- The loop of handleSubscribeMsg over the callback paths.
    unfoldable pub subscribe_paths :
        ℕ → Node → List Bytes → List Bytes → List Bytes → Option (Node × List Bytes × List Bytes)
    subscribe_paths me root [] syncs paths = some (root, syncs, paths)
    subscribe_paths me root (c ∷ cs) syncs paths = do
      r ← register_callback_and_get_obj_set T address true root c me
      subscribe_paths me r.0 cs (insert_found syncs r.1) (path_insert c paths)

    -- An object that is there already.
    abbrev pub send_one :
        Time → ℕ → Node → ServerSession Obj → Bytes → Option Obj → Option (Node × ServerSession Obj)
    send_one now me root s p none = some (root, s)
    send_one now me root s p (some o) = server_enq_msg now me root s (put_msg p o)

    unfoldable pub send_found :
        Time → ℕ → Node → ServerSession Obj → List Bytes → Option (Node × ServerSession Obj)
    send_found now me root s [] = some (root, s)
    send_found now me root s (p ∷ ps) = do
      found ← get_object T root p
      r ← send_one now me root s p found
      send_found now me r.0 r.1 ps

    abbrev pub local_subscription : Bytes
    local_subscription = codes "/proc/local/subscription"

    -- handleSubscribeMsg; `text_object` makes the string object of the notification.
    unfoldable pub handle_subscribe_msg :
        (Bytes → Obj)
        → Time
        → ℕ
        → Node
        → ServerSession Obj
        → Bytes
        → Option (Node × ServerSession Obj)
    handle_subscribe_msg text_object now me root s paths = do
      r ← subscribe_paths me root (getlines b',' paths) [] s.cb_paths
      t ← send_found now me r.0 (record s { cb_paths = r.2 }) r.1
      server_enq_msg now me t.0 t.1 (put_msg local_subscription (text_object paths))

module _ {Obj : Type 0} (T : MetaTree Obj) where
  open T use {Node}

  module _ (live : ℕ → Bool) where
    module _ (equals : Obj → Obj → Option Bool) where
      -- handlePutObject, on the tree of a name.
      unfoldable pub handle_put_object :
          (Obj → Bool)
          → Bytes
          → Node
          → ServerSession Obj
          → Bytes
          → Obj
          → Bytes
          → Option (Node × ServerSession Obj × List (Notification Obj))
      handle_put_object alive name root s path o opt = do
        r ← put_object T live equals name root path o
        let m = if bytes_eq opt dod_opt then register_dod alive s.dod_map path o else s.dod_map
        some (r.0, record s { dod_map = m }, r.1)

    unfoldable pub del_all : Bytes → Node → List Bytes → Option (Node × List (Notification Obj))
    del_all name root [] = some (root, [])
    del_all name root (p ∷ ps) = do
      r ← del_object T live name root p
      t ← del_all name r.0 ps
      some (t.0, r.1 ++ t.1)

    -- The destructor.
    unfoldable pub destroy_session :
        (Obj → Bool) → Bytes → Node → ServerSession Obj → Option (Node × List (Notification Obj))
    destroy_session alive name root s =
        del_all name root (proc_paths s.session_name ++ dod_paths alive s.dod_map)
