-- ===== src/Server/Delivery.antt =====
-- What a transaction sends to the sessions of src/ObexServer.cpp.
use objxp.Common.{
  ℕ, ◌≡◌, refl, sym, ap, ◌∙◌, inl, inr, Bool, true, false, List, [], ◌∷◌, ◌++◌, none, some, arith,
  is_empty, append-nil, Bool-cases,
}
use objxp.Server.{
  Change, Session, Server, SessionMsg, begin_transaction, finish_transaction, finish_all,
  end_transaction, handle_changes,
}
use objxp.Server.Finish.{mem_of, finish_all_lem}
use objxp.Server.Open.{changes_for, Once, transaction_of, as_action, Open, changes_run-Open}

module _ {Obj : Type 0} where
  finished :
      (cs : List (Change Obj)) (sent : List (SessionMsg Obj))
      → finish_transaction (record { x_action = as_action cs; sent = sent })
        ≡ record { x_action = none; sent = sent ++ transaction_of cs }
  unfolding finish_transaction
  finished [] sent = ap (λ t. record { x_action = none; sent = t }) (sym (append-nil sent))
  finished (c ∷ cs) sent = refl

  unopened :
      (cs : List (Change Obj)) (sent : List (SessionMsg Obj))
      → is_empty cs ≡ true
      → ◌≡◌ {A = Session Obj}
          (record { x_action = as_action cs; sent = sent })
          (record { x_action = none; sent = sent ++ transaction_of cs })
  unopened [] sent h = ap (λ t. record { x_action = none; sent = t }) (sym (append-nil sent))
  unopened (c ∷ cs) sent h = absurd (ground arith)

  started-Open :
      (s : Server Obj)
      → s.x_session_list ≡ []
      → ((j : ℕ) → (s.sessions j).x_action ≡ none)
      → Open s.sessions [] (record s { xaction_in_progress = true })
  unfolding changes_for mem_of
  started-Open s empty idle = record {
    started = refl;
    session = λ j. ap (λ a. record { x_action = a; sent = (s.sessions j).sent }) (idle j);
    listed = λ j. ap (mem_of j) empty;
  }

  Open-sends :
      (live : ℕ → Bool) (f : ℕ → Session Obj) (cs : List (ℕ × Change Obj)) (s : Server Obj) (j : ℕ)
      → Open f cs s
      → live j ≡ true
      → finish_all live s.sessions s.x_session_list j
        ≡ record { x_action = none; sent = (f j).sent ++ transaction_of (changes_for j cs) }
  Open-sends live f cs s j o alive =
      finish_all_lem live s.sessions s.x_session_list j
      ∙ elim (Bool-cases (is_empty (changes_for j cs))) [
        | inl e ↦ rw (o.listed j, e) (o.session j ∙ unopened (changes_for j cs) (f j).sent e)
        | inr e ↦
            rw (o.listed j, e, alive)
              (ap finish_transaction (o.session j) ∙ finished (changes_for j cs) (f j).sent)
      ]

  -- A transaction, which begins while no transaction is open and in which no session is told twice
  -- of the same path, fails no assertion and leaves none open. Each session that is still there is
  -- sent one message with the changes that it was told of, in order, or none if there are none.
  pub handle_changes-sends :
      (live : ℕ → Bool) (s : Server Obj) (cs : List (ℕ × Change Obj))
      → s.x_session_list ≡ []
      → ((j : ℕ) → (s.sessions j).x_action ≡ none)
      → Once [] cs
      → (s' : Server Obj) × (handle_changes live s cs ≡ some s')
        × (s'.x_session_list ≡ [])
        × (s'.xaction_in_progress ≡ false)
        × ((j : ℕ)
            → live j ≡ true
            → s'.sessions j ≡ record {
              x_action = none;
              sent = (s.sessions j).sent ++ transaction_of (changes_for j cs);
            })
  unfolding handle_changes begin_transaction end_transaction
  handle_changes-sends live s cs empty idle once =
      let (s1, e, o) =
        changes_run-Open live s.sessions cs [] (record s { xaction_in_progress = true })
          (started-Open s empty idle) once in
      let none_open : is_empty s.x_session_list ≡ true = ap is_empty empty in
      (
        end_transaction live s1,
        rw (none_open, e),
        refl,
        refl,
        λ j alive. Open-sends live s.sessions cs s1 j o alive,
      )
