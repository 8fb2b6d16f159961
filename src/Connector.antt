-- ===== src/Connector.antt =====
-- SocketConnector of src/SocketConnector.cpp and include/SocketConnector.h: connecting with
-- retries, one step for each expiry of its timer. connect, select and getsockopt are the
-- environment of a step. `none` is a failed assertion. The period and the limit are given as 0
-- where they are not positive.
pub mod Once
mod Tests
use objxp.Common.{
  ℕ, suc, ◌+◌, ◌≡◌, Bool, true, false, ◌&&◌, ◌||◌, List, [], ◌∷◌, ◌++◌, Option, none, some, ltb,
  ◌==◌, if◌then◌else◌, ◌>>=◌,
}

pub data ConnState : Type 0 where
  conn_idle conn_in_progress conn_connected : ConnState

-- `cli_sock` is none for -1, and `timer` the time of the timer if it is registered.
pub record Connector : Type 0 where
  pub conn_state : ConnState
  pub cli_sock : Option ℕ
  pub retry_count : ℕ
  pub timer : Option ℕ

-- The constructor, with the timer that init registers.
abbrev pub init_connector : Connector
init_connector = record { conn_state = conn_idle; cli_sock = none; retry_count = 0; timer = some 0 }

-- The calls of onConnected and onConnectionFailed.
pub data Report : Type 0 where
  report_connected : Option ℕ → Report
  report_failed : Report

-- What connect returns with the socket that it leaves, whether select finds the socket writable,
-- and the error that getsockopt reads, if it succeeds.
pub record Env : Type 0 where
  pub connected : ConnState
  pub socket : Option ℕ
  pub ready : Bool
  pub sock_error : Option ℕ

-- getsockopt succeeds and reads no error.
abbrev pub no_error : Option ℕ → Bool
no_error none = false
no_error (some e) = e == 0

-- An expiry calls connect where the connector is idle.
abbrev pub call_of : ConnState → ℕ
call_of conn_idle = 1
call_of conn_in_progress = 0
call_of conn_connected = 0

module _ (retry_period retry_limit : ℕ) where
  -- The end of onTimerExpired where the connection failed.
  unfoldable pub set_up_retry : Connector → Connector × List Report
  set_up_retry c =
      if ltb 0 retry_period && (retry_limit == 0 || ltb c.retry_count retry_limit)
      then (
        record c { cli_sock = none; retry_count = suc c.retry_count; timer = some retry_period },
        [],
      )
      else (record c { cli_sock = none; timer = none }, report_failed ∷ [])

  -- What follows a connect with a result.
  abbrev pub after_connect : Connector → ConnState → Connector × List Report
  after_connect c conn_idle = set_up_retry (record c { conn_state = conn_idle })
  after_connect c conn_in_progress =
      (record c { conn_state = conn_in_progress; timer = some 100 }, [])
  after_connect c conn_connected =
      (record c { conn_state = conn_connected; timer = none }, report_connected c.cli_sock ∷ [])

  -- What follows the test of a connect in progress.
  abbrev pub after_select : Connector → Bool → Bool → Connector × List Report
  after_select c false fine = (record c { timer = some 100 }, [])
  after_select c true false = after_connect c conn_idle
  after_select c true true = after_connect c conn_connected

  -- onTimerExpired
  unfoldable pub on_timer_expired : Connector → ConnState → Env → Option (Connector × List Report)
  on_timer_expired c conn_idle env =
      some (after_connect (record c { cli_sock = env.socket }) env.connected)
  on_timer_expired c conn_in_progress env = elim c.cli_sock [
    | none ↦ none
    | some fd ↦ some (after_select c env.ready (no_error env.sock_error))
  ]
  on_timer_expired c conn_connected env = some (c, [])

  -- The expiries of the timer while it is registered, each with its environment, and the reports.
  unfoldable pub connector_run : Connector → List Env → Option (Connector × List Report)
  connector_run c [] = some (c, [])
  connector_run c (env ∷ es) = elim c.timer [
    | none ↦ some (c, [])
    | some t ↦ do
      r ← on_timer_expired (record c { timer = none }) c.conn_state env
      s ← connector_run r.0 es
      some (s.0, r.1 ++ s.1)
  ]

  -- The calls of connect in such a run.
  unfoldable pub connects : Connector → List Env → ℕ
  connects c [] = 0
  connects c (env ∷ es) = elim c.timer [
    | none ↦ 0
    | some t ↦ elim (on_timer_expired (record c { timer = none }) c.conn_state env) [
      | none ↦ call_of c.conn_state
      | some r ↦ call_of c.conn_state + connects r.0 es
    ]
  ]
