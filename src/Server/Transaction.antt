-- ===== src/Server/Transaction.antt =====
-- handleTransaction of ObexServerSession of src/ObexServer.cpp: the elements that a session
-- receives, on the tree of its server, whose callbacks are the sessions. `none` is an exception or
-- a failed assertion.
pub mod Told
pub mod Once
pub mod Reach
pub mod Exact
pub mod Holds
pub mod Elements
pub mod Sends
mod Tests
use objxp.Common.{ℕ, Bool, List, [], ◌∷◌, map, Option, none, some, Bytes, ◌>>=◌}
use objxp.Tree.{MetaTree, Notification, updated, deleted, del_object}
use objxp.Server.{
  Change, change_put, change_del, Server, begin_transaction, end_transaction, changes_run,
}
use objxp.Server.Objects.{ServerSession, handle_put_object}

-- ObexTransactionElement: a path with an object and an option, or a path.
pub data Element (Obj : Type 0) : Type 0 where
  element_put : Bytes → Obj → Bytes → Element Obj
  element_del : Bytes → Element Obj

-- The session that a call of onUpdated or onDeleted is for, and the change that it is told of.
abbrev pub told_of : {Obj : Type 0} → Notification Obj → ℕ × Change Obj
told_of (updated c name path o old) = (c, change_put path o)
told_of (deleted c name path old) = (c, change_del path)

module _ {Obj : Type 0} (T : MetaTree Obj) (live : ℕ → Bool) (equals : Obj → Obj → Option Bool)
    (alive : Obj → Bool) (name : Bytes) where
  open T use {Node}

  -- handlePutObject or handleDelObject.
  unfoldable pub handle_element :
      Node
      → ServerSession Obj
      → Element Obj
      → Option (Node × ServerSession Obj × List (Notification Obj))
  handle_element root sender (element_put path o opt) =
      handle_put_object T live equals alive name root sender path o opt
  handle_element root sender (element_del path) = do
    r ← del_object T live name root path
    some (r.0, sender, r.1)

  -- The loop over the elements; the tree tells the sessions of each of them at once.
  unfoldable pub handle_elements :
      Node
      → ServerSession Obj
      → Server Obj
      → List (Element Obj)
      → Option (Node × ServerSession Obj × Server Obj)
  handle_elements root sender s [] = some (root, sender, s)
  handle_elements root sender s (e ∷ es) = do
    r ← handle_element root sender e
    s' ← changes_run live s (map told_of r.2)
    handle_elements r.0 r.1 s' es

  unfoldable pub handle_transaction :
      Node
      → ServerSession Obj
      → Server Obj
      → List (Element Obj)
      → Option (Node × ServerSession Obj × Server Obj)
  handle_transaction root sender s es = do
    s' ← begin_transaction s
    r ← handle_elements root sender s' es
    some (r.0, r.1, end_transaction live r.2)
