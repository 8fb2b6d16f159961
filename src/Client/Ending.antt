-- ===== src/Client/Ending.antt =====
-- The end of a session in ObexClient of src/ObexClient.cpp follows the table.
use objxp.Common.{
  ◌≡◌, refl, ap, Bool, true, false, [], ◌∷◌, some, Bytes, bytes_eq_iff, if◌then◌else◌, arith,
  Option-cases, Bool-cases, inl, inr, subst,
}
use objxp.PropertyTree.{assoc_get}
use objxp.Client.{
  ClientSession, Client, disconnected, drop_named, client_on_disconnected, disconnect,
}
use objxp.Client.Registry.{Distinct, find_named-get, drop_named-get, drop_named-Distinct}
use objxp.Client.Table.{free, link, call_lost, Legal, at_key, closed_at, IsClient, Refines}

-- The session at a key ends.
module _ (c : Client) (k : Bytes) (s : ClientSession) where
  pub ended : Client
  ended = record c { sessions = drop_named s.session_name c.sessions }

  pub client_on_disconnected-session :
      Distinct c.sessions
      → assoc_get k c.sessions ≡ some s
      → (open_fd : Bool)
      → client_on_disconnected c s.session_name open_fd
        ≡ (ended, if open_fd then disconnected k ∷ [] else [])
  unfolding client_on_disconnected ended
  client_on_disconnected-session d e b = ground (arith, find_named-get k c.sessions s d e)

  ended-IsClient : IsClient c → assoc_get k c.sessions ≡ some s → IsClient ended
  unfolding ended
  ended-IsClient h e = record {
    distinct = drop_named-Distinct s.session_name c.sessions h.distinct;
    apart = λ j. ground (arith, h.apart j, drop_named-get k j c.sessions s h.distinct e);
  }

  pub ended-link :
      IsClient c
      → assoc_get k c.sessions ≡ some s
      → (j : Bytes) → link ended j ≡ at_key (link c) k free j
  unfolding ended
  ended-link h e j =
      ground (arith, drop_named-get k j c.sessions s h.distinct e, bytes_eq_iff k j, h.apart j)

  pub ended-Refines :
      IsClient c
      → assoc_get k c.sessions ≡ some s
      → (open_fd : Bool)
      → Refines
          (some (client_on_disconnected c s.session_name open_fd))
          (at_key (link c) k free, if open_fd then disconnected k ∷ [] else [])
  ended-Refines h e b = (
    (ended, if b then disconnected k ∷ [] else []),
    ap (λ r. some r) (client_on_disconnected-session h.distinct e b),
    ended-IsClient h e,
    (λ j. ended-link h e j),
    refl,
  )

pub disconnect-Refines :
    (c : Client) (k : Bytes)
    → IsClient c
    → Refines (some (disconnect c k)) (closed_at (link c) k (link c k))
unfolding disconnect
disconnect-Refines c k h = elim (Option-cases (assoc_get k c.sessions)) [
  | inl e ↦ elim (Option-cases (assoc_get k c.connectors)) [
    | inl f ↦ ((c, []), ground arith, h, (λ j. rw (e, f) refl), rw (e, f) refl)
    | inr (d, f) ↦ ((c, []), ground arith, h, (λ j. rw (e, f) refl), rw (e, f) refl)
  ]
  | inr (s, e) ↦ elim (Bool-cases s.is_cohab) [
    | inl b ↦
        let (r, p, q, l, n) = ended-Refines c k s h e false in
        (r, ground arith, q, (λ j. rw (e, b) (l j)), rw (e, b) n)
    | inr b ↦
        let (r, p, q, l, n) = ended-Refines c k s h e true in
        (r, ground arith, q, (λ j. rw (e, b) (l j)), rw (e, b) n)
  ]
]

pub lost-Refines :
    (c : Client) (k name : Bytes)
    → IsClient c
    → Legal c (call_lost k name)
    → Refines (some (client_on_disconnected c name true)) (closed_at (link c) k (link c k))
lost-Refines c k name h (s, e, q, b) =
    let o = ended-Refines c k s h e true in
    rw (e, b)
      (subst
        (λ (x : Bytes).
          Refines (some (client_on_disconnected c x true))
            (at_key (link c) k free, disconnected k ∷ []))
        q o)
