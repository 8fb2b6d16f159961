-- ===== src/Server/Tests.antt =====
-- Tests of the transactions of src/ObexServer.cpp.
use objxp.Common.{ℕ, ◌≡◌, refl, Bool, true, false, List, [], ◌∷◌, ◌++◌, none, some, codes, bytes_eq}
use objxp.Server.{Change, change_put, change_del, Server, put_msg, has_change, handle_changes}
use objxp.Server.Open.{changes_for, Once, transaction_of}
use objxp.Server.Delivery.{handle_changes-sends}

abbrev all_live : ℕ → Bool
all_live t = true

abbrev server : Server ℕ
server = record {
  sessions = λ i. record { x_action = none; sent = put_msg (codes "/x") i ∷ [] };
  xaction_in_progress = false;
  x_session_list = [];
}

abbrev changes : List (ℕ × Change ℕ)
changes =
    (4, change_put (codes "/a") 1)
    ∷ (5, change_put (codes "/a") 1)
    ∷ (4, change_del (codes "/b"))
    ∷ []

once : Once [] changes
unfolding has_change changes_for bytes_eq
once = (refl, (refl, (refl, tt)))

two_sessions_told :
    (s' : Server ℕ) × (handle_changes all_live server changes ≡ some s')
    × (s'.x_session_list ≡ [])
    × (s'.xaction_in_progress ≡ false)
    × ((j : ℕ)
        → all_live j ≡ true
        → s'.sessions j ≡ record {
          x_action = none;
          sent = (server.sessions j).sent ++ transaction_of (changes_for j changes);
        })
two_sessions_told = handle_changes-sends all_live server changes refl (λ j. refl) once
