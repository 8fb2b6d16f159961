-- ===== src/Client/Status.antt =====
-- ObexClient of src/ObexClient.cpp keeps for each key one of four states: it refines a table of
-- these.
use objxp.Common.{◌≡◌, refl, sym, ap, ◌∙◌, false, List, Option, some, Bytes, arith, bytes_eq_refl}
use objxp.PropertyTree.{assoc_get}
use objxp.Client.{
  ClientSession, Client, ClientReport, not_found, cohab_name, client_on_disconnected,
  connect_server, get_session_status,
}
use objxp.Client.Table.{
  free, Link, link, status_of, ClientCall, call_connect, call_connect_server, call_failed,
  call_disconnect, call_connected, call_lost, client_call, Legal, link_step, IsClient, Refines,
}
use objxp.Client.Opening.{
  connect-Refines, on_connection_failed-Refines, on_connected-Refines, connect_server-Refines,
}
use objxp.Client.Ending.{
  ended, ended-link, client_on_disconnected-session, disconnect-Refines, lost-Refines,
}

get_session_status_lem : (c : Client) (k : Bytes) → get_session_status c k ≡ status_of (link c k)
unfolding get_session_status
get_session_status_lem c k = ground arith

-- And getSessionStatus reads the table.
abbrev pub Answers :
    Option (Client × List ClientReport) → (Bytes → Link) × List ClientReport → Type 0
Answers o t =
    (r : Client × List ClientReport) × (o ≡ some r)
    × IsClient r.0
    × ((j : Bytes) → link r.0 j ≡ t.0 j)
    × ((j : Bytes) → get_session_status r.0 j ≡ status_of (t.0 j))
    × (r.1 ≡ t.1)

Refines-Answers :
    {o : Option (Client × List ClientReport)} {t : (Bytes → Link) × List ClientReport}
    → Refines o t
    → Answers o t
Refines-Answers (r, p, q, l, n) =
    (r, p, q, l, (λ j. get_session_status_lem r.0 j ∙ ap status_of (l j)), n)

-- A client whose sessions have different keys and names, and no connector under a session's key, at
-- a call that is legal: a connector reports while it is registered, the name of a new session is
-- not in use, a server of the same process is connected under a key that is free, and what loses
-- its connection is a remote session. Then no assertion fails, the client is again such a one, and
-- what it has under each key changes as in the table of states: connect registers a connector where
-- the key is free, and else does nothing; success, failure, disconnect and the loss of the
-- connection change the key's own entry alone; the connection callback is called as the table says,
-- and getSessionStatus of a key is the status of its entry.
pub client_call-Answers :
    (c : Client) (call : ClientCall)
    → IsClient c
    → Legal c call
    → Answers (client_call c call) (link_step (link c) call)
client_call-Answers c (call_connect k dest) h g = Refines-Answers (connect-Refines c k dest h)
client_call-Answers c (call_connect_server k) h g =
    Refines-Answers (connect_server-Refines c k h g.0 g.1)
client_call-Answers c (call_failed k) h g = Refines-Answers (on_connection_failed-Refines c k h g)
client_call-Answers c (call_disconnect k) h g = Refines-Answers (disconnect-Refines c k h)
client_call-Answers c (call_connected k fd) h g =
    Refines-Answers (on_connected-Refines c k fd h g.0 g.1)
client_call-Answers c (call_lost k name) h g = Refines-Answers (lost-Refines c k name h g)

connect_server_taken :
    (c : Client) (k : Bytes) (s : ClientSession)
    → assoc_get k c.sessions ≡ some s
    → connect_server c k ≡ client_on_disconnected c (cohab_name c k) false
unfolding connect_server
connect_server_taken c k s e = ground arith

-- A client at whose key a session of a server in the same process stands: connecting that server
-- under the key again leaves the client with no session there, and getSessionStatus returns
-- NOT_FOUND, provided that keys and names are different, and there is no connector under a
-- session's key.
pub connect_server_again :
    (c : Client) (k : Bytes) (s : ClientSession)
    → IsClient c
    → assoc_get k c.sessions ≡ some s
    → s.session_name ≡ cohab_name c k
    → get_session_status (connect_server c k).0 k ≡ not_found
connect_server_again c k s h e q =
    let taken : connect_server c k ≡ client_on_disconnected c (cohab_name c k) false =
      connect_server_taken c k s e in
    let gone = client_on_disconnected-session c k s h.distinct e false in
    let emptied : link (ended c k s) k ≡ free =
      ended-link c k s h e k ∙ rw (bytes_eq_refl k) refl in
    get_session_status_lem (connect_server c k).0 k
    ∙ ap (λ (r : Client × List ClientReport). status_of (link r.0 k))
        (taken ∙ (ap (λ (x : Bytes). client_on_disconnected c x false) (sym q) ∙ gone))
    ∙ ap status_of emptied
