-- ===== src/Client/Tests.antt =====
-- Tests of the client of src/ObexClient.cpp.
use objxp.Common.{
  ◌≡◌, refl, true, false, [], ◌∷◌, none, some, Bytes, codes, bytes_eq, bytes_eq_iff, subst, inl,
  inr, Bool-cases,
}
use objxp.PropertyTree.{assoc_get, assoc_erase}
use objxp.Tree.Callbacks.{object_insert}
use objxp.MsgIo.Transaction.{digits}
use objxp.Client.{
  ClientSession, Client, connect_server, connected, on_connected, get_session_status, not_found,
}
use objxp.Client.Table.{IsClient, Legal, call_connected, client_call, link_step, link}
use objxp.Client.Status.{Answers, client_call-Answers, connect_server_again}

abbrev k : Bytes
k = codes "k"

abbrev there : ClientSession
there = record { session_name = codes "c-s"; is_cohab = true }

-- A session under s and a connector under k.
abbrev client : Client
client = record {
  client_name = codes "c";
  sessions = (codes "s", there) ∷ [];
  connectors = (k, codes "host:1") ∷ [];
}

key_apart : assoc_get (codes "s") client.connectors ≡ none
unfolding assoc_get bytes_eq
key_apart = refl

client-IsClient : IsClient client
unfolding assoc_get
client-IsClient = record {
  distinct = (refl, tt, tt);
  apart = λ j. elim (Bool-cases (bytes_eq (codes "s") j)) [
    | inl same ↦ inr (
        subst (λ (x : Bytes). assoc_get x client.connectors ≡ none)
          ((bytes_eq_iff (codes "s") j).0 same) key_apart)
    | inr other ↦ inl (rw other refl)
  ];
}

client_call-Legal : Legal client (call_connected k 7)
unfolding assoc_get bytes_eq digits
client_call-Legal = (refl, ((λ e. cc), tt))

-- The connector under k has connected.
client_call-Answers_example :
    Answers (client_call client (call_connected k 7)) (link_step (link client) (call_connected k 7))
client_call-Answers_example =
    client_call-Answers client (call_connected k 7) client-IsClient client_call-Legal

client_there : assoc_get (codes "s") client.sessions ≡ some there
unfolding assoc_get bytes_eq
client_there = refl

connect_server_again_example :
    get_session_status (connect_server client (codes "s")).0 (codes "s") ≡ not_found
connect_server_again_example =
    connect_server_again client (codes "s") there client-IsClient client_there refl

name_connected :
    on_connected client k 7
    ≡ some (
      record {
        client_name = codes "c";
        sessions =
            (codes "s", there) ∷ (k, record { session_name = codes "c-7"; is_cohab = false }) ∷ [];
        connectors = [];
      },
      connected k ∷ [],
    )
unfolding on_connected object_insert assoc_get assoc_erase bytes_eq digits
name_connected = refl
