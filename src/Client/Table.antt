-- ===== src/Client/Table.antt =====
-- A table of what ObexClient of src/ObexClient.cpp has under each key, and what its calls do to it.
use objxp.Common.{
  ℕ, ◌≡◌, ◌⊎◌, true, false, List, [], ◌∷◌, Option, none, some, Bytes, bytes_eq, if◌then◌else◌,
}
use objxp.PropertyTree.{assoc_get}
use objxp.Client.{
  ClientSession, Client, ClientReport, connected, connection_failed, disconnected, SessionStatus,
  not_found, connecting, is_connected, remote_name, cohab_name, on_connected, on_connection_failed,
  client_on_disconnected, connect, connect_server, disconnect,
}
use objxp.Client.Registry.{Distinct, Unnamed}

-- What a client has under a key.
pub data Link : Type 0 where
  free waiting open_remote open_cohab : Link

abbrev pub link_of : Option ClientSession → Option Bytes → Link
link_of none none = free
link_of none (some dest) = waiting
link_of (some s) c = if s.is_cohab then open_cohab else open_remote

abbrev pub link : Client → Bytes → Link
link c k = link_of (assoc_get k c.sessions) (assoc_get k c.connectors)

abbrev pub status_of : Link → SessionStatus
status_of free = not_found
status_of waiting = connecting
status_of open_remote = is_connected
status_of open_cohab = is_connected

pub data ClientCall : Type 0 where
  call_connect : Bytes → Bytes → ClientCall
  call_connect_server call_failed call_disconnect : Bytes → ClientCall
  call_connected : Bytes → ℕ → ClientCall
  -- The session at a key, by its name, loses its connection.
  call_lost : Bytes → Bytes → ClientCall

abbrev pub client_call : Client → ClientCall → Option (Client × List ClientReport)
client_call c (call_connect k dest) = some (connect c k dest, [])
client_call c (call_connect_server k) = some (connect_server c k)
client_call c (call_failed k) = on_connection_failed c k
client_call c (call_disconnect k) = some (disconnect c k)
client_call c (call_connected k fd) = on_connected c k fd
client_call c (call_lost k name) = some (client_on_disconnected c name true)

-- A connector reports while it is registered; a new session's name is not in use.
abbrev pub Legal : Client → ClientCall → Type 0
Legal c (call_connect k dest) = Unit
Legal c (call_connect_server k) = (link c k ≡ free) × Unnamed (cohab_name c k) c.sessions
Legal c (call_failed k) = link c k ≡ waiting
Legal c (call_disconnect k) = Unit
Legal c (call_connected k fd) = (link c k ≡ waiting) × Unnamed (remote_name c fd) c.sessions
Legal c (call_lost k name) =
    (s : ClientSession) × (assoc_get k c.sessions ≡ some s)
    × (s.session_name ≡ name)
    × (s.is_cohab ≡ false)

abbrev pub at_key : (Bytes → Link) → Bytes → Link → Bytes → Link
at_key f k new j = if bytes_eq k j then new else f j

abbrev pub closed_at : (Bytes → Link) → Bytes → Link → (Bytes → Link) × List ClientReport
closed_at f k free = (f, [])
closed_at f k waiting = (f, [])
closed_at f k open_remote = (at_key f k free, disconnected k ∷ [])
closed_at f k open_cohab = (at_key f k free, [])

abbrev pub opened_at : (Bytes → Link) → Bytes → Link → Bytes → Link
opened_at f k free = at_key f k waiting
opened_at f k waiting = f
opened_at f k open_remote = f
opened_at f k open_cohab = f

-- The table of states after a call, and the calls of the connection callback.
abbrev pub link_step : (Bytes → Link) → ClientCall → (Bytes → Link) × List ClientReport
link_step f (call_connect k dest) = (opened_at f k (f k), [])
link_step f (call_connect_server k) = (at_key f k open_cohab, [])
link_step f (call_failed k) = (at_key f k free, connection_failed k ∷ [])
link_step f (call_disconnect k) = closed_at f k (f k)
link_step f (call_connected k fd) = (at_key f k open_remote, connected k ∷ [])
link_step f (call_lost k name) = closed_at f k (f k)

pub record IsClient (c : Client) : Type 0 where
  pub distinct : Distinct c.sessions
  pub apart : (k : Bytes) → (assoc_get k c.sessions ≡ none) ⊎ (assoc_get k c.connectors ≡ none)

-- The result is a client in the state of the table, with these reports.
abbrev pub Refines :
    Option (Client × List ClientReport) → (Bytes → Link) × List ClientReport → Type 0
Refines o t =
    (r : Client × List ClientReport) × (o ≡ some r)
    × IsClient r.0
    × ((j : Bytes) → link r.0 j ≡ t.0 j)
    × (r.1 ≡ t.1)
