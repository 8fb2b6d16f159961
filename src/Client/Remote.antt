-- ===== src/Client/Remote.antt =====
-- ObexRemoteClientSession of src/ObexClient.cpp: what a session sends to its server, and its
-- transactions. `messages` is what was handed to enqMsg. An object is its type name and data.
-- `none` is an exception or a failed assertion.
pub mod Transact
pub mod Received
mod Tests
use objxp.Common.{
  ℕ, ◌≡◌, Bool, true, false, not, List, [], ◌∷◌, ◌++◌, Option, none, some, Bytes, is_empty,
  getlines, if◌then◌else◌, guard, ◌>>=◌, ◌>>◌,
}
use objxp.Path.{valid_obj_path, valid_cb_path}
use objxp.Tree.{MetaTree, Notification, put_object, del_object}
use objxp.Server.Transaction.{Element, element_put, element_del}
use objxp.MsgIo.Transaction.{XElement, dod_opt, transaction_put, transaction_del}

-- PutObjectMsg, DelObjectMsg, SubscribeMsg and TransactionMsg.
pub data RemoteMsg : Type 0 where
  -- Path, type name, data and option.
  put_object_msg : Bytes → Bytes → Bytes → Bytes → RemoteMsg
  del_object_msg : Bytes → RemoteMsg
  subscribe_msg : Bytes → RemoteMsg
  x_action_msg : List XElement → RemoteMsg

-- `notifies` says that a subscription callback is set and registered for its completion.
pub record Remote : Type 0 where
  pub x_action : Option (List XElement)
  pub messages : List RemoteMsg
  pub notifies : Bool

abbrev pub enq : Remote → RemoteMsg → Remote
enq r m = record r { messages = r.messages ++ (m ∷ []) }

unfoldable pub remote_put_object : Remote → Bytes → Bytes → Bytes → Bool → Option Remote
remote_put_object r path ty d dod = do
  valid ← valid_obj_path path
  if not valid then some r else elim r.x_action [
    | none ↦ some (enq r (put_object_msg path ty d (if dod then dod_opt else [])))
    | some xs ↦ do xs' ← transaction_put xs path ty d dod; some (record r { x_action = some xs' })
  ]

unfoldable pub remote_del_object : Remote → Bytes → Option Remote
remote_del_object r path = do
  valid ← valid_obj_path path
  if not valid then some r else elim r.x_action [
    | none ↦ some (enq r (del_object_msg path))
    | some xs ↦ do xs' ← transaction_del xs path; some (record r { x_action = some xs' })
  ]

-- The loop of subscribe, which returns at the first path that is not valid.
unfoldable pub all_valid : List Bytes → Option Bool
all_valid [] = some true
all_valid (c ∷ cs) = do valid ← valid_cb_path c; if valid then all_valid cs else some false

unfoldable pub remote_subscribe : Remote → Bytes → Bool → Option Remote
remote_subscribe r cb_paths has_callback = do
  valid ← all_valid (getlines b',' cb_paths)
  some (
      if valid
      then record (enq r (subscribe_msg cb_paths)) {
        notifies = if has_callback then true else r.notifies;
      }
      else r)

unfoldable pub remote_begin_transaction : Remote → Option Remote
remote_begin_transaction r = elim r.x_action [
  | none ↦ some (record r { x_action = some [] })
  | some xs ↦ none
]

unfoldable pub remote_end_transaction : Remote → Option Remote
remote_end_transaction r = elim r.x_action [
  | none ↦ none
  | some xs ↦ some (record (if is_empty xs then r else enq r (x_action_msg xs)) { x_action = none })
]

unfoldable pub remote_abort_transaction : Remote → Option Remote
remote_abort_transaction r = elim r.x_action [
  | none ↦ none
  | some xs ↦ some (record r { x_action = none })
]

module _ {Obj : Type 0} (T : MetaTree Obj) (live : ℕ → Bool) (equals : Obj → Obj → Option Bool)
    (key : Bytes) where
  open T use {Node}

  -- handlePutObject and handleDelObject, on the session's own tree, whose name is its key.
  unfoldable pub remote_handle_element :
      Node → Element Obj → Option (Node × List (Notification Obj))
  remote_handle_element root (element_put path o opt) = put_object T live equals key root path o
  remote_handle_element root (element_del path) = del_object T live key root path

  -- handleTransaction, with the calls of onUpdated and onDeleted.
  unfoldable pub remote_handle_transaction :
      Node → List (Element Obj) → Option (Node × List (Notification Obj))
  remote_handle_transaction root [] = some (root, [])
  remote_handle_transaction root (e ∷ es) = do
    r ← remote_handle_element root e
    t ← remote_handle_transaction r.0 es
    some (t.0, r.1 ++ t.1)
