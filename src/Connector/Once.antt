-- ===== src/Connector/Once.antt =====
-- A SocketConnector of src/SocketConnector.cpp reports once.
use objxp.Common.{
  ℕ, suc, ◌+◌, ◌≤◌, ◌≡◌, ◌≢◌, refl, sym, ◌∙◌, ◌⊎◌, inl, inr, subst, Bool, true, false, ◌&&◌, ◌||◌,
  List, [], ◌∷◌, ◌++◌, Option, none, some, arith, All, append-nil, ltb, ◌==◌, Bool-cases,
  Option-cases,
}
use objxp.Connector.{
  ConnState, conn_idle, conn_in_progress, conn_connected, Connector, init_connector, Report,
  report_failed, report_connected, Env, set_up_retry, after_connect, after_select, no_error,
  on_timer_expired, connector_run, call_of, connects,
}

-- connect returns that it is in progress only with a socket.
abbrev pub HasSocket : ConnState → Option ℕ → Type 0
HasSocket conn_idle s = Unit
HasSocket conn_in_progress s = (fd : ℕ) × (s ≡ some fd)
HasSocket conn_connected s = Unit

abbrev pub IsEnv : Env → Type 0
IsEnv env = HasSocket env.connected env.socket

abbrev pub Counted : ℕ → Connector → Type 0
Counted limit c = (limit ≡ 0) ⊎ (c.retry_count ≤ limit)

-- The timer is registered and nothing was reported, or it is not and there was one report.
abbrev pub Phase : Option ℕ → List Report → Type 0
Phase none rs = (r : Report) × (rs ≡ r ∷ [])
Phase (some t) rs = rs ≡ []

-- A connector whose timer is registered is not connected.
abbrev pub Waits : Option ℕ → ConnState → Type 0
Waits none st = Unit
Waits (some t) st = st ≢ conn_connected

not_idle : conn_idle ≢ conn_connected
not_idle e = absurd (ground arith)

pub record Good (limit : ℕ) (c : Connector) (rs : List Report) : Type 0 where
  pub counted : Counted limit c
  pub phase : Phase c.timer rs
  pub socket : HasSocket c.conn_state c.cli_sock
  pub waits : Waits c.timer c.conn_state

module _ (retry_period retry_limit : ℕ) where
  set_up_retry-Good :
      (c : Connector)
      → Counted retry_limit c
      → c.conn_state ≡ conn_idle
      → (let r = set_up_retry retry_period retry_limit c in Good retry_limit r.0 r.1)
  unfolding set_up_retry
  set_up_retry-Good c k e =
      elim (Bool-cases
        (ltb 0 retry_period && (retry_limit == 0 || ltb c.retry_count retry_limit))) [
          | inl h ↦ rw h (record {
            counted = ground arith;
            phase = refl;
            socket = subst (λ s. HasSocket s none) (sym e) tt;
            waits = λ q. not_idle (sym e ∙ q);
          })
          | inr h ↦ rw h (record {
            counted = k;
            phase = (report_failed, refl);
            socket = subst (λ s. HasSocket s none) (sym e) tt;
            waits = tt;
          })
        ]

  after_connect-Good :
      (c : Connector) (st : ConnState)
      → Counted retry_limit c
      → HasSocket st c.cli_sock
      → (let r = after_connect retry_period retry_limit c st in Good retry_limit r.0 r.1)
  after_connect-Good c conn_idle k h =
      set_up_retry-Good (record c { conn_state = conn_idle }) k refl
  after_connect-Good c conn_in_progress k h = record {
    counted = k;
    phase = refl;
    socket = h;
    waits = λ q. absurd (ground arith);
  }
  after_connect-Good c conn_connected k h = record {
    counted = k;
    phase = (report_connected c.cli_sock, refl);
    socket = tt;
    waits = tt;
  }

  after_select-Good :
      (c : Connector) (ready fine : Bool)
      → Counted retry_limit c
      → HasSocket c.conn_state c.cli_sock
      → c.conn_state ≢ conn_connected
      → (let r = after_select retry_period retry_limit c ready fine in Good retry_limit r.0 r.1)
  after_select-Good c false fine k h ne = record {
    counted = k;
    phase = refl;
    socket = h;
    waits = ne;
  }
  after_select-Good c true false k h ne = after_connect-Good c conn_idle k tt
  after_select-Good c true true k h ne = after_connect-Good c conn_connected k tt

  -- A step that leaves the timer registered counts each retry.
  abbrev Retries : ℕ → Connector → Type 0
  Retries n c = (c.timer ≡ none) ⊎ (n + call_of c.conn_state ≤ c.retry_count)

  set_up_retry-Retries :
      (c : Connector)
      → c.conn_state ≡ conn_idle
      → Retries c.retry_count (set_up_retry retry_period retry_limit c).0
  unfolding set_up_retry
  set_up_retry-Retries c e =
      elim (Bool-cases
        (ltb 0 retry_period && (retry_limit == 0 || ltb c.retry_count retry_limit))) [
          | inl h ↦ rw (h, e) (inr (omega arith))
          | inr h ↦ rw h (inl refl)
        ]

  after_connect-Retries :
      (c : Connector) (st : ConnState)
      → Retries c.retry_count (after_connect retry_period retry_limit c st).0
  after_connect-Retries c conn_idle =
      set_up_retry-Retries (record c { conn_state = conn_idle }) refl
  after_connect-Retries c conn_in_progress = inr (omega arith)
  after_connect-Retries c conn_connected = inl refl

  after_select-Retries :
      (c : Connector) (ready fine : Bool)
      → c.conn_state ≡ conn_in_progress
      → Retries c.retry_count (after_select retry_period retry_limit c ready fine).0
  after_select-Retries c false fine e = rw e (inr (omega arith))
  after_select-Retries c true false e = after_connect-Retries c conn_idle
  after_select-Retries c true true e = after_connect-Retries c conn_connected

  abbrev Steps : ℕ → Option (Connector × List Report) → Type 0
  Steps n r =
      (c' : Connector) × (rs : List Report) × (r ≡ some (c', rs))
      × Good retry_limit c' rs
      × Retries n c'

  on_timer_expired-Good :
      (c : Connector) (st : ConnState) (env : Env)
      → c.conn_state ≡ st
      → st ≢ conn_connected
      → Counted retry_limit c
      → HasSocket st c.cli_sock
      → IsEnv env
      → Steps c.retry_count (on_timer_expired retry_period retry_limit c st env)
  unfolding on_timer_expired
  on_timer_expired-Good c conn_idle env e ne k h g = (
    _,
    _,
    refl,
    after_connect-Good (record c { cli_sock = env.socket }) env.connected k g,
    after_connect-Retries (record c { cli_sock = env.socket }) env.connected,
  )
  on_timer_expired-Good c conn_in_progress env e ne k (fd, h) g = (
    _,
    _,
    rw h,
    after_select-Good c env.ready (no_error env.sock_error) k
        (subst (λ s. HasSocket s c.cli_sock) (sym e) (fd, h)) (λ q. ne (sym e ∙ q)),
    after_select-Retries c env.ready (no_error env.sock_error) e,
  )
  on_timer_expired-Good c conn_connected env e ne k h g = absurd (ne refl)

  connector_run-Good :
      (c : Connector) (rs : List Report) (es : List Env)
      → All IsEnv es
      → Good retry_limit c rs
      → (c' : Connector) × (new : List Report) × (connector_run retry_period retry_limit c es
          ≡ some (c', new))
        × Good retry_limit c' (rs ++ new)
  unfolding connector_run
  connector_run-Good c rs [] h g = (c, [], refl, subst (Good retry_limit c) (sym (append-nil rs)) g)
  connector_run-Good c rs (env ∷ es) (henv, h) g = elim (Option-cases c.timer) [
    | inl e ↦ (c, [], rw e, subst (Good retry_limit c) (sym (append-nil rs)) g)
    | inr (t, e) ↦
        let ne : c.conn_state ≢ conn_connected = subst (λ o. Waits o c.conn_state) e g.waits in
        let nothing : rs ≡ [] = subst (λ o. Phase o rs) e g.phase in
        let (c1, r1, e1, g1, _) =
          on_timer_expired-Good (record c { timer = none }) c.conn_state env refl ne g.counted
            g.socket henv in
        let (c2, r2, e2, g2) = connector_run-Good c1 r1 es h g1 in
        (
          c2,
          r1 ++ r2,
          rw (e, e1, e2),
          subst (λ q. Good retry_limit c2 (q ++ (r1 ++ r2))) (sym nothing) g2,
        )
  ]

  connects-none :
      (c : Connector) (es : List Env) → c.timer ≡ none → connects retry_period retry_limit c es ≡ 0
  unfolding connects
  connects-none c [] e = refl
  connects-none c (env ∷ es) e = rw e refl

  connects-step :
      (c : Connector) (env : Env) (es : List Env) (r : Connector × List Report) (t : ℕ)
      → c.timer ≡ some t
      → on_timer_expired retry_period retry_limit (record c { timer = none }) c.conn_state env
        ≡ some r
      → connects retry_period retry_limit c (env ∷ es)
        ≡ call_of c.conn_state + connects retry_period retry_limit r.0 es
  unfolding connects
  connects-step c env es r t e h = rw (e, connects, h)

  used_up :
      (c c' : Connector) (es : List Env)
      → Counted retry_limit c
      → Retries c.retry_count c'
      → (retry_limit ≡ 0)
        ⊎ (connects retry_period retry_limit c' es + c'.retry_count
            ≤ retry_limit + call_of c'.conn_state)
      → (retry_limit ≡ 0)
        ⊎ (call_of c.conn_state + connects retry_period retry_limit c' es + c.retry_count
            ≤ retry_limit + call_of c.conn_state)
  used_up c c' es k r n = ground (arith, connects-none c' es)

  -- The calls of connect that are left to a connector.
  connects-limit :
      (c : Connector) (rs : List Report) (es : List Env)
      → All IsEnv es
      → Good retry_limit c rs
      → (retry_limit ≡ 0)
        ⊎ (connects retry_period retry_limit c es + c.retry_count
            ≤ retry_limit + call_of c.conn_state)
  connects-limit c rs [] h g =
      let nothing : connects retry_period retry_limit c [] ≡ 0 = (unfold connects in refl) in
      ground (arith, g.counted)
  connects-limit c rs (env ∷ es) (henv, h) g = elim (Option-cases c.timer) [
    | inl e ↦ ground (arith, g.counted, connects-none c (env ∷ es) e)
    | inr (t, e) ↦
        let ne : c.conn_state ≢ conn_connected = subst (λ o. Waits o c.conn_state) e g.waits in
        let (c1, r1, e1, g1, k) =
          on_timer_expired-Good (record c { timer = none }) c.conn_state env refl ne g.counted
            g.socket henv in
        ground (
          arith,
          connects-step c env es (c1, r1) t e e1,
          used_up c c1 es g.counted k (connects-limit c1 r1 es h g1),
        )
  ]

  -- Where connect returns that it is in progress only with a socket, a connector fails no assertion.
  -- While its timer is registered it has reported nothing, and when it is not, it has
  -- reported exactly once, that it is connected or that it failed. Unless there is no limit, it
  -- counts at most as many retries as the limit says, and calls connect at most once more.
  pub connector_run-reports_once :
      (es : List Env)
      → All IsEnv es
      → (c : Connector) × (rs : List Report) × (connector_run retry_period retry_limit
            init_connector es
          ≡ some (c, rs))
        × Phase c.timer rs
        × Counted retry_limit c
        × ((retry_limit ≡ 0)
            ⊎ (connects retry_period retry_limit init_connector es ≤ suc retry_limit))
  connector_run-reports_once es h =
      let g : Good retry_limit init_connector [] = record {
        counted = inr (omega arith);
        phase = refl;
        socket = tt;
        waits = not_idle;
      } in
      let (c, rs, e, g') = connector_run-Good init_connector [] es h g in
      (c, rs, e, g'.phase, g'.counted, ground (arith, connects-limit init_connector [] es h g))
