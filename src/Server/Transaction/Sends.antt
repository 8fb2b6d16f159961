-- ===== src/Server/Transaction/Sends.antt =====
-- handleTransaction of src/ObexServer.cpp on the tree and the sessions together.
use objxp.Common.{
  ℕ, ◌≡◌, ◌≢◌, refl, sym, ap, ◌∙◌, subst, inl, inr, Bool, true, false, List, [], ◌∷◌, ◌++◌, Option,
  none, some, Bytes, All, In, >>=-eq-some, ◌>>=◌,
}
use objxp.Path.{valid_obj_path, convert_to_dot_path}
use objxp.Path.Convert.{tokens}
use objxp.Tree.{MetaTree, get_object}
use objxp.Tree.Notify.{registered_from}
use objxp.Server.{
  Change, Session, Server, transaction_msg, begin_transaction, end_transaction, changes_run,
  handle_changes,
}
use objxp.Server.Open.{changes_for, transaction_of}
use objxp.Server.Delivery.{handle_changes-sends}
use objxp.Server.Objects.{ServerSession}
use objxp.Server.Transaction.{Element, handle_transaction}
use objxp.Server.Transaction.Reach.{Differs, Reaches}
use objxp.Server.Transaction.Exact.{expected}
use objxp.Server.Transaction.Once.{element_path, element_change, DistinctPaths}
use objxp.Server.Transaction.Holds.{Holds}
use objxp.Server.Transaction.Elements.{elements_done}

module _ {Obj : Type 0} (T : MetaTree Obj) (live : ℕ → Bool) (equals : Obj → Obj → Option Bool)
    (alive : Obj → Bool) (name : Bytes) where
  open T use {Node}

  elements-All : (es : List (Element Obj)) → All (λ e. Unit {0}) es
  elements-All [] = tt
  elements-All (e ∷ es) = (tt, elements-All es)

  one_message :
      (ch : Change Obj) (cs : List (Change Obj))
      → In ch cs
      → transaction_of cs ≡ transaction_msg cs ∷ []
  one_message ch [] h = absurd h
  one_message ch (c ∷ cs) h = refl

  All-In :
      (root : Node) (cs : List (ℕ × Change Obj)) (e : Element Obj) (es : List (Element Obj))
      → In e es
      → All (Reaches T live equals name root cs) es
      → Reaches T live equals name root cs e
  All-In root cs e [] i h = absurd i
  All-In root cs e (f ∷ es) (inl q) (h, hs) = subst (Reaches T live equals name root cs) (sym q) h
  All-In root cs e (f ∷ es) (inr i) (h, hs) = All-In root cs e es i hs

  transacted :
      (root : Node) (sender : ServerSession Obj) (s : Server Obj) (es : List (Element Obj))
      → ((x y : Obj) → (b : Bool) × (equals x y ≡ some b))
      → All (λ e. valid_obj_path (element_path e) ≡ some true) es
      → DistinctPaths es
      → s.x_session_list ≡ []
      → ((j : ℕ) → (s.sessions j).x_action ≡ none)
      → (root' : Node) × (sender' : ServerSession Obj) × (s' : Server Obj) × (cs : List
          (ℕ × Change Obj))
        × (handle_transaction T live equals alive name root sender s es ≡ some (root', sender', s'))
        × All (Holds T live equals root') es
        × ((q : Bytes)
            → valid_obj_path q ≡ some true
            → All (λ e. q ≢ element_path e) es
            → get_object T root' q ≡ get_object T root q)
        × (s'.x_session_list ≡ [])
        × (s'.xaction_in_progress ≡ false)
        × All (Reaches T live equals name root cs) es
        × ((j : ℕ) → live j ≡ true → changes_for j cs ≡ expected T live equals name root j es)
        × ((j : ℕ)
            → live j ≡ true
            → s'.sessions j ≡ record {
              x_action = none;
              sent = (s.sessions j).sent ++ transaction_of (changes_for j cs);
            })
  unfolding handle_transaction
  transacted root sender s es total valid distinct empty idle =
      let (root', sender', cs, runs, once, _, reach, exact, holds, others) =
        elements_done T live equals alive name total root sender es [] valid distinct
          (elements-All es) in
      let (s', run, none_left, closed, sends) = handle_changes-sends live s cs empty idle once in
      let opened : (begin_transaction s >>= λ t.
      changes_run live t cs >>= λ u. some (end_transaction live u))
          ≡ some s' =
        (unfold handle_changes in run) in
      let (s1, began, run1) =
        >>=-eq-some (begin_transaction s)
          (λ t. changes_run live t cs >>= λ u. some (end_transaction live u)) opened in
      let (s2, ran, ended) =
        >>=-eq-some (changes_run live s1 cs) (λ u. some (end_transaction live u)) run1 in
      let last : end_transaction live s2 ≡ s' = cc ended in
      (
        root',
        sender',
        s',
        cs,
        rw (began, runs s1 s2 ran, last) refl,
        holds,
        others,
        none_left,
        closed,
        reach,
        exact,
        sends,
      )

  -- A session receives a transaction of elements at different valid paths, where a comparison of
  -- objects always returns, and no other transaction is open. Then handleTransaction returns; each
  -- path of an element reads as the element says, or as an equal object that was there, and any
  -- other valid path as before; the server has no open transaction; and each living session is sent
  -- one message, or none where it would be empty: the transaction of the changes, in the order of
  -- the elements, of those elements that change the tree as it was at the start, and for whose path
  -- the session was registered then. An element changes the tree if it puts an object where none or
  -- one that is not equal is, or deletes an object that is there.
  pub handle_transaction-sends :
      (root : Node) (sender : ServerSession Obj) (s : Server Obj) (es : List (Element Obj))
      → ((x y : Obj) → (b : Bool) × (equals x y ≡ some b))
      → All (λ e. valid_obj_path (element_path e) ≡ some true) es
      → DistinctPaths es
      → s.x_session_list ≡ []
      → ((j : ℕ) → (s.sessions j).x_action ≡ none)
      → (root' : Node) × (sender' : ServerSession Obj) × (s' : Server Obj) × (handle_transaction T
            live equals alive name root sender s es
          ≡ some (root', sender', s'))
        × All (Holds T live equals root') es
        × ((q : Bytes)
            → valid_obj_path q ≡ some true
            → All (λ e. q ≢ element_path e) es
            → get_object T root' q ≡ get_object T root q)
        × (s'.x_session_list ≡ [])
        × (s'.xaction_in_progress ≡ false)
        × ((j : ℕ)
            → live j ≡ true
            → s'.sessions j ≡ record {
              x_action = none;
              sent = (s.sessions j).sent ++ transaction_of (expected T live equals name root j es);
            })
  handle_transaction-sends root sender s es total valid distinct empty idle =
      let (root', sender', s', cs, run, holds, others, none_left, closed, _, exact, sends) =
        transacted root sender s es total valid distinct empty idle in
      (
        root',
        sender',
        s',
        run,
        holds,
        others,
        none_left,
        closed,
        λ j alive_j.
            sends j alive_j
            ∙ ap (λ l. record { x_action = none; sent = (s.sessions j).sent ++ transaction_of l })
                (exact j alive_j),
      )

  -- A session receives a transaction of elements at different valid paths, where a comparison of
  -- objects always returns, and no other transaction is open. One of the elements changes the tree
  -- as it is at the start: a put where no object or one that is not equal is, or the removal of an
  -- object. Then handleTransaction returns, and each living session that was registered for the
  -- element's path at the start is sent one message, a transaction in which the element's change
  -- is.
  pub handle_transaction-reaches :
      (root : Node) (sender : ServerSession Obj) (s : Server Obj) (es : List (Element Obj))
      (e : Element Obj) (d : Bytes) (j : ℕ)
      → ((x y : Obj) → (b : Bool) × (equals x y ≡ some b))
      → All (λ f. valid_obj_path (element_path f) ≡ some true) es
      → DistinctPaths es
      → s.x_session_list ≡ []
      → ((i : ℕ) → (s.sessions i).x_action ≡ none)
      → In e es
      → convert_to_dot_path (element_path e) ≡ some d
      → Differs T live equals name root e
      → live j ≡ true
      → registered_from T live [] root (tokens d) j ≡ true
      → (root' : Node) × (sender' : ServerSession Obj) × (s' : Server Obj) × (changes : List
          (Change Obj))
        × (handle_transaction T live equals alive name root sender s es ≡ some (root', sender', s'))
        × In (element_change e) changes
        × ((s'.sessions j).sent ≡ (s.sessions j).sent ++ (transaction_msg changes ∷ []))
  handle_transaction-reaches root sender s es e d j total valid distinct empty idle i hd differs
        alive_j registered =
      let (root', sender', s', cs, run, _, _, _, _, reach, _, sends) =
        transacted root sender s es total valid distinct empty idle in
      let told = All-In root cs e es i reach d j hd differs alive_j registered in
      (
        root',
        sender',
        s',
        changes_for j cs,
        run,
        told,
        ap (λ (t : Session Obj). t.sent) (sends j alive_j)
            ∙ ap (λ l. (s.sessions j).sent ++ l)
                (one_message (element_change e) (changes_for j cs) told),
      )
