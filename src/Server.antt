-- ===== src/Server.antt =====
-- The server's transactions: ObexServer and the callbacks of ObexServerSession of
-- src/ObexServer.cpp and include/ObexServer.h. A session is named by a number, and `live` says
-- whether the weak pointer to it still locks. What a session sends is the list of messages that it
-- passed to enqMsg. `none` is a failed assertion.
pub mod Finish
pub mod Open
pub mod Delivery
pub mod Objects
pub mod Transaction
mod Tests
use objxp.Common.{
  ℕ, Bool, true, false, not, ◌||◌, List, [], ◌∷◌, ◌++◌, Option, none, some, Bytes, bytes_eq,
  is_empty, ◌==◌, if◌then◌else◌, guard, ◌>>=◌, ◌>>◌,
}

-- An element of an ObexTransaction.
pub data Change (Obj : Type 0) : Type 0 where
  change_put : Bytes → Obj → Change Obj
  change_del : Bytes → Change Obj

abbrev pub change_path : {Obj : Type 0} → Change Obj → Bytes
change_path (change_put path o) = path
change_path (change_del path) = path

-- PutObjectMsg, DelObjectMsg and TransactionMsg.
pub data SessionMsg (Obj : Type 0) : Type 0 where
  put_msg : Bytes → Obj → SessionMsg Obj
  del_msg : Bytes → SessionMsg Obj
  transaction_msg : List (Change Obj) → SessionMsg Obj

abbrev pub single_msg : {Obj : Type 0} → Change Obj → SessionMsg Obj
single_msg (change_put path o) = put_msg path o
single_msg (change_del path) = del_msg path

pub record Session (Obj : Type 0) : Type 0 where
  pub x_action : Option (List (Change Obj))
  pub sent : List (SessionMsg Obj)

pub record Server (Obj : Type 0) : Type 0 where
  pub sessions : ℕ → Session Obj
  pub xaction_in_progress : Bool
  pub x_session_list : List ℕ

module _ {Obj : Type 0} where
  abbrev pub set_session : (ℕ → Session Obj) → ℕ → Session Obj → ℕ → Session Obj
  set_session f i s j = if j == i then s else f j

  unfoldable pub begin_transaction : Server Obj → Option (Server Obj)
  begin_transaction s =
      guard (is_empty s.x_session_list) >> some (record s { xaction_in_progress = true })

  -- xMap_.find(path) != xMap_.end()
  unfoldable pub has_change : Bytes → List (Change Obj) → Bool
  has_change p [] = false
  has_change p (c ∷ cs) = bytes_eq (change_path c) p || has_change p cs

  -- ObexTransaction::putObject and delObject
  unfoldable pub add_change : List (Change Obj) → Change Obj → Option (List (Change Obj))
  add_change cs c = guard (not (has_change (change_path c) cs)) >> some (cs ++ (c ∷ []))

  -- The transaction of a session, made at its first change, when the session is added to the
  -- server's list.
  abbrev pub open_transaction : Option (List (Change Obj)) → List ℕ → ℕ → List (Change Obj) × List ℕ
  open_transaction none l i = ([], l ++ (i ∷ []))
  open_transaction (some cs) l i = (cs, l)

  -- onUpdated and onDeleted of a session.
  unfoldable pub on_change : Server Obj → ℕ → Change Obj → Option (Server Obj)
  on_change s i c =
      let session = s.sessions i in
      let opened = open_transaction session.x_action s.x_session_list i in
      if s.xaction_in_progress
      then (do
        cs ← add_change opened.0 c
        some (record s {
          sessions = set_session s.sessions i (record session { x_action = some cs });
          x_session_list = opened.1;
        }))
      else some (record s {
        sessions =
            set_session s.sessions i
              (record session { sent = session.sent ++ (single_msg c ∷ []) });
      })

  abbrev pub finish_with : Session Obj → Option (List (Change Obj)) → Session Obj
  finish_with session none = session
  finish_with session (some cs) = record {
    x_action = none;
    sent = session.sent ++ (if is_empty cs then [] else transaction_msg cs ∷ []);
  }

  unfoldable pub finish_transaction : Session Obj → Session Obj
  finish_transaction session = finish_with session session.x_action

  module _ (live : ℕ → Bool) where
    -- The loop of endTransaction.
    unfoldable pub finish_all : (ℕ → Session Obj) → List ℕ → ℕ → Session Obj
    finish_all f [] = f
    finish_all f (i ∷ l) =
        finish_all (if live i then set_session f i (finish_transaction (f i)) else f) l

    unfoldable pub end_transaction : Server Obj → Server Obj
    end_transaction s = record {
      sessions = finish_all s.sessions s.x_session_list;
      xaction_in_progress = false;
      x_session_list = [];
    }

    -- The changes of a transaction, each with the session that is told.
    unfoldable pub changes_run : Server Obj → List (ℕ × Change Obj) → Option (Server Obj)
    changes_run s [] = some s
    changes_run s ((i, c) ∷ cs) = do s' ← on_change s i c; changes_run s' cs

    -- handleTransaction, as far as the sessions go: what the tree tells them of its elements.
    unfoldable pub handle_changes : Server Obj → List (ℕ × Change Obj) → Option (Server Obj)
    handle_changes s cs = do
      s' ← begin_transaction s
      s'' ← changes_run s' cs
      some (end_transaction s'')
