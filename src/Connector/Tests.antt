-- ===== src/Connector/Tests.antt =====
-- Tests of the connector of src/SocketConnector.cpp.
use objxp.Common.{ℕ, ◌≡◌, ◌≤◌, ◌⊎◌, refl, true, List, [], ◌∷◌, none, some}
use objxp.Connector.{
  conn_idle, conn_in_progress, Connector, init_connector, Report, Env, connector_run, connects,
}
use objxp.Connector.Once.{Phase, Counted, connector_run-reports_once}

-- A connect that fails, and one that is in progress and then succeeds.
abbrev envs : List Env
envs =
    record { connected = conn_idle; socket = none; ready = true; sock_error = none }
    ∷ record { connected = conn_in_progress; socket = some 7; ready = true; sock_error = none }
    ∷ record { connected = conn_idle; socket = none; ready = true; sock_error = some 0 }
    ∷ []

connector_run-reports_once_example :
    (c : Connector) × (rs : List Report) × (connector_run 500 3 init_connector envs ≡ some (c, rs))
    × Phase c.timer rs
    × Counted 3 c
    × ((◌≡◌ {A = ℕ} 3 0) ⊎ (connects 500 3 init_connector envs ≤ 4))
connector_run-reports_once_example =
    connector_run-reports_once 500 3 envs (tt, ((7, refl), (tt, tt)))
