-- ===== src/Client.antt =====
-- ObexClient of src/ObexClient.cpp and include/ObexClient.h: the sessions and connectors of a client
-- by their keys. `none` is a failed assertion. A map is walked in the order of insertion. What a
-- session does to the tree of its server stands in Cohab, what it sends in Remote.
pub mod Registry
pub mod Table
pub mod Opening
pub mod Ending
pub mod Status
pub mod Cohab
pub mod Remote
mod Tests
use objxp.Common.{
  ℕ, Bool, true, false, List, [], ◌∷◌, ◌++◌, map, Option, none, some, Bytes, codes, bytes_eq,
  if◌then◌else◌, guard, ◌>>=◌, ◌>>◌,
}
use objxp.PropertyTree.{assoc_get, assoc_erase}
use objxp.Tree.Callbacks.{object_insert}
use objxp.MsgIo.Transaction.{decimal}

-- A session under its key: ObexCohabClientSession or ObexRemoteClientSession.
pub record ClientSession : Type 0 where
  pub session_name : Bytes
  pub is_cohab : Bool

pub record Client : Type 0 where
  pub client_name : Bytes
  pub sessions : List (Bytes × ClientSession)
  pub connectors : List (Bytes × Bytes)

-- The calls of the connection callback, with the session's key.
pub data ClientReport : Type 0 where
  connected connection_failed disconnected : Bytes → ClientReport

-- What getSessionStatus returns.
pub data SessionStatus : Type 0 where
  not_found connecting is_connected : SessionStatus

abbrev pub has_key : {A : Type 0} → Bytes → List (Bytes × A) → Bool
has_key k l = elim (assoc_get k l) [ none ↦ false | some a ↦ true ]

abbrev pub remote_name : Client → ℕ → Bytes
remote_name c fd = c.client_name ++ (b'-' ∷ decimal fd)

abbrev pub cohab_name : Client → Bytes → Bytes
cohab_name c key = c.client_name ++ (b'-' ∷ key)

unfoldable pub on_connected : Client → Bytes → ℕ → Option (Client × List ClientReport)
on_connected c key fd =
    let session : ClientSession = record { session_name = remote_name c fd; is_cohab = false } in
    guard (has_key key c.connectors)
    >> some (
      record c {
        sessions = object_insert key session c.sessions;
        connectors = assoc_erase key c.connectors;
      },
      connected key ∷ [],
    )

unfoldable pub on_connection_failed : Client → Bytes → Option (Client × List ClientReport)
on_connection_failed c key =
    guard (has_key key c.connectors)
    >> some (record c { connectors = assoc_erase key c.connectors }, connection_failed key ∷ [])

-- The key of the first session with a name.
unfoldable pub find_named : Bytes → List (Bytes × ClientSession) → Option Bytes
find_named name [] = none
find_named name ((key, s) ∷ l) =
    if bytes_eq s.session_name name then some key else find_named name l

-- Erases the first session with a name. The destructor of a cohab session disconnects again, which
-- erases the next one.
unfoldable pub drop_named : Bytes → List (Bytes × ClientSession) → List (Bytes × ClientSession)
drop_named name [] = []
drop_named name ((key, s) ∷ l) =
    let rest = drop_named name l in
    if bytes_eq s.session_name name then (if s.is_cohab then rest else l) else (key, s) ∷ rest

-- onDisconnected; `open_fd` says that fd is not negative.
unfoldable pub client_on_disconnected : Client → Bytes → Bool → Client × List ClientReport
client_on_disconnected c name open_fd = elim (find_named name c.sessions) [
  | none ↦ (c, [])
  | some key ↦ (
    record c { sessions = drop_named name c.sessions },
    if open_fd then disconnected key ∷ [] else [],
  )
]

-- connect to a destination.
unfoldable pub connect : Client → Bytes → Bytes → Client
connect c key dest =
    if has_key key c.connectors
    then c
    else if has_key key c.sessions
    then c
    else record c { connectors = object_insert key dest c.connectors }

-- connect to a server of the same process. A session whose key is taken is not inserted, so that it
-- is destroyed, and disconnects by its name.
unfoldable pub connect_server : Client → Bytes → Client × List ClientReport
connect_server c key = elim (assoc_get key c.sessions) [
  | none ↦ (
    record c {
      sessions =
          object_insert key (record { session_name = cohab_name c key; is_cohab = true })
            c.sessions;
    },
    [],
  )
  | some s ↦ client_on_disconnected c (cohab_name c key) false
]

-- disconnect, for a remote session whose descriptor is open or a cohab session.
unfoldable pub disconnect : Client → Bytes → Client × List ClientReport
disconnect c key = elim (assoc_get key c.sessions) [
  | none ↦ (c, [])
  | some s ↦ client_on_disconnected c s.session_name (if s.is_cohab then false else true)
]

unfoldable pub get_session : Client → Bytes → Option ClientSession
get_session c key = assoc_get key c.sessions

unfoldable pub get_session_status : Client → Bytes → SessionStatus
get_session_status c key =
    if has_key key c.sessions
    then is_connected
    else if has_key key c.connectors
    then connecting
    else not_found

abbrev pub in_progress_text : Bytes
in_progress_text = codes "Connection in progress ..."

abbrev pub session_text : (Bytes → Bytes) → ClientSession → Bytes
session_text peer s =
    codes "Connected as " ++ (s.session_name ++ (codes ", Peer: " ++ peer s.session_name))

unfoldable pub insert_all : List (Bytes × Bytes) → List (Bytes × Bytes) → List (Bytes × Bytes)
insert_all acc [] = acc
insert_all acc ((k, v) ∷ l) = insert_all (object_insert k v acc) l

-- getSessionSummaries; `peer` gives the peer's name of a session.
unfoldable pub get_session_summaries : (Bytes → Bytes) → Client → List (Bytes × Bytes)
get_session_summaries peer c =
    insert_all (insert_all [] (map (λ e. (e.0, session_text peer e.1)) c.sessions))
      (map (λ e. (e.0, in_progress_text)) c.connectors)
