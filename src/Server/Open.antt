-- ===== src/Server/Open.antt =====
-- A server of src/ObexServer.cpp in the middle of a transaction, and the changes that its sessions
-- are told of.
use objxp.Common.{
  ℕ, ◌≡◌, refl, sym, ap, ◌∙◌, inl, inr, subst, Bool, true, false, not, ◌||◌, List, [], ◌∷◌, ◌++◌,
  Option, none, some, arith, is_empty, append-nil, append_assoc, ◌==◌, if◌then◌else◌, Bool-cases,
}
use objxp.Server.{
  Change, change_path, Session, Server, SessionMsg, transaction_msg, set_session, has_change,
  add_change, open_transaction, on_change, changes_run,
}
use objxp.Server.Finish.{mem_of}

mem_of-snoc : (j : ℕ) (l : List ℕ) (i : ℕ) → mem_of j (l ++ (i ∷ [])) ≡ (mem_of j l || j == i)
unfolding mem_of
mem_of-snoc j [] i = ground arith
mem_of-snoc j (k ∷ l) i = ground (arith, mem_of-snoc j l i)

is_empty-snoc : {A : Type 0} (xs : List A) (x : A) → is_empty (xs ++ (x ∷ [])) ≡ false
is_empty-snoc [] x = refl
is_empty-snoc (y ∷ xs) x = refl

module _ {Obj : Type 0} where
  -- The changes that a session is told of, in order.
  unfoldable pub changes_for : ℕ → List (ℕ × Change Obj) → List (Change Obj)
  changes_for j [] = []
  changes_for j ((i, c) ∷ cs) = let rest = changes_for j cs in if j == i then c ∷ rest else rest

  -- No session is told twice of the same path.
  abbrev pub Once : List (ℕ × Change Obj) → List (ℕ × Change Obj) → Type 0
  Once before [] = Unit
  Once before ((i, c) ∷ cs) =
      (has_change (change_path c) (changes_for i before) ≡ false)
      × Once (before ++ ((i, c) ∷ [])) cs

  -- The message for some changes, if there are any.
  abbrev pub transaction_of : List (Change Obj) → List (SessionMsg Obj)
  transaction_of [] = []
  transaction_of (c ∷ cs) = transaction_msg (c ∷ cs) ∷ []

  abbrev pub as_action : List (Change Obj) → Option (List (Change Obj))
  as_action [] = none
  as_action (c ∷ cs) = some (c ∷ cs)

  pub changes_for-snoc :
      (j : ℕ) (before : List (ℕ × Change Obj)) (i : ℕ) (c : Change Obj)
      → changes_for j (before ++ ((i, c) ∷ []))
        ≡ (if j == i then changes_for j before ++ (c ∷ []) else changes_for j before)
  unfolding changes_for
  changes_for-snoc j [] i c = ground arith
  changes_for-snoc j ((k, d) ∷ before) i c = elim (Bool-cases (j == k)) [
    | inl e ↦ elim (Bool-cases (j == i)) [
      | inl q ↦ rw (e, q, changes_for-snoc j before i c, q)
      | inr q ↦ rw (e, q, changes_for-snoc j before i c, q)
    ]
    | inr e ↦ rw (e, changes_for-snoc j before i c)
  ]

  -- A server in the middle of a transaction: the sessions as they were, and the changes so far.
  pub record Open (f : ℕ → Session Obj) (before : List (ℕ × Change Obj)) (s : Server Obj)
      : Type 0 where
    pub started : s.xaction_in_progress ≡ true
    pub session :
        (j : ℕ)
        → s.sessions j ≡ record { x_action = as_action (changes_for j before); sent = (f j).sent }
    pub listed : (j : ℕ) → mem_of j s.x_session_list ≡ not (is_empty (changes_for j before))

  after_change : Server Obj → ℕ → List (Change Obj) → Change Obj → Server Obj
  after_change s i cs c = record s {
    sessions =
        set_session s.sessions i
          (record { x_action = some (cs ++ (c ∷ [])); sent = (s.sessions i).sent });
    x_session_list = if is_empty cs then s.x_session_list ++ (i ∷ []) else s.x_session_list;
  }

  opened :
      (cs : List (Change Obj)) (l : List ℕ) (i : ℕ)
      → open_transaction (as_action cs) l i ≡ (cs, if is_empty cs then l ++ (i ∷ []) else l)
  opened [] l i = refl
  opened (c ∷ cs) l i = refl

  on_change-after_change :
      (s : Server Obj) (i : ℕ) (c : Change Obj) (cs : List (Change Obj))
      → s.xaction_in_progress ≡ true
      → (s.sessions i).x_action ≡ as_action cs
      → has_change (change_path c) cs ≡ false
      → on_change s i c ≡ some (after_change s i cs c)
  unfolding on_change add_change after_change
  on_change-after_change s i c cs h e new =
      let q = ap (λ a. open_transaction a s.x_session_list i) e ∙ opened cs s.x_session_list i in
      rw (h, q, new)

  after_change-Open :
      (f : ℕ → Session Obj) (before : List (ℕ × Change Obj)) (s : Server Obj) (i : ℕ)
      (c : Change Obj)
      → Open f before s
      → Open f (before ++ ((i, c) ∷ [])) (after_change s i (changes_for i before) c)
  unfolding after_change
  after_change-Open f before s i c o = record {
    started = o.started;
    session = λ j. elim (Bool-cases (j == i)) [
      | inl q ↦
          let p : i ≡ j = ground arith in
          rw (changes_for-snoc j before i c, q)
            (ap (λ a. record { x_action = a; sent = (s.sessions i).sent })
                (some_action (changes_for i before) c)
              ∙ ap
                  (λ k. record {
                    x_action = as_action (changes_for k before ++ (c ∷ []));
                    sent = (s.sessions k).sent;
                  })
                  p
              ∙ ap
                  (λ t. record {
                    x_action = as_action (changes_for j before ++ (c ∷ []));
                    sent = t;
                  })
                  (ap (λ (t : Session Obj). t.sent) (o.session j)))
      | inr q ↦ rw (changes_for-snoc j before i c, q) (o.session j)
    ];
    listed = λ j. elim (Bool-cases (is_empty (changes_for i before))) [
      | inl e ↦ elim (Bool-cases (j == i)) [
        | inl q ↦
            rw
              (
                e,
                mem_of-snoc j s.x_session_list i,
                changes_for-snoc j before i c,
                q,
                is_empty-snoc (changes_for j before) c,
              )
              (ground arith)
        | inr q ↦
            rw (e, mem_of-snoc j s.x_session_list i, changes_for-snoc j before i c, q, o.listed j)
              (ground arith)
      ]
      | inr e ↦ elim (Bool-cases (j == i)) [
        | inl q ↦
            let p : i ≡ j = ground arith in
            let there : mem_of j s.x_session_list ≡ true =
              o.listed j ∙ ap (λ k. not (is_empty (changes_for k before))) (sym p) ∙ rw e in
            rw (e, there, changes_for-snoc j before i c, q, is_empty-snoc (changes_for j before) c)
        | inr q ↦ rw (e, changes_for-snoc j before i c, q) (o.listed j)
      ]
    ];
  }
    where
      some_action :
          (cs : List (Change Obj)) (c : Change Obj)
          → some (cs ++ (c ∷ [])) ≡ as_action (cs ++ (c ∷ []))
      some_action [] c = refl
      some_action (d ∷ cs) c = refl

  pub changes_run-Open :
      (live : ℕ → Bool) (f : ℕ → Session Obj) (cs before : List (ℕ × Change Obj)) (s : Server Obj)
      → Open f before s
      → Once before cs
      → (s' : Server Obj) × (changes_run live s cs ≡ some s') × Open f (before ++ cs) s'
  unfolding changes_run
  changes_run-Open live f [] before s o h =
      (s, refl, subst (λ t. Open f t s) (sym (append-nil before)) o)
  changes_run-Open live f ((i, c) ∷ cs) before s o (new, news) =
      let mine = changes_for i before in
      let step =
        on_change-after_change s i c mine o.started
          (ap (λ (t : Session Obj). t.x_action) (o.session i)) new in
      let (s', e, o') =
        changes_run-Open live f cs (before ++ ((i, c) ∷ [])) (after_change s i mine c)
          (after_change-Open f before s i c o) news in
      (s', rw step e, subst (λ t. Open f t s') (append_assoc before ((i, c) ∷ []) cs) o')
