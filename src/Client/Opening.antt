-- ===== src/Client/Opening.antt =====
-- Connecting in ObexClient of src/ObexClient.cpp follows the table.
use objxp.Common.{
  ℕ, ◌≡◌, refl, sym, ◌∙◌, true, false, List, [], ◌∷◌, Option, none, some, Bytes, bytes_eq,
  bytes_eq_iff, if◌then◌else◌, arith, Option-cases, Bool-cases, inl, inr, subst,
}
use objxp.PropertyTree.{assoc_get, assoc_erase}
use objxp.Tree.Callbacks.{object_insert}
use objxp.Client.{
  ClientSession, Client, connected, connection_failed, has_key, remote_name, cohab_name,
  on_connected, on_connection_failed, connect, connect_server,
}
use objxp.Client.Registry.{
  assoc_get-object_insert, object_insert_new, assoc_get-erase, Distinct, Unnamed, append-Distinct,
}
use objxp.Client.Table.{
  free, waiting, open_remote, open_cohab, link_of, link, at_key, opened_at, IsClient, Refines,
}

-- A change of the connectors at one key.
module _ (c : Client) (cs : List (Bytes × Bytes)) (k : Bytes) (new : Option Bytes) where
  connectors-IsClient :
      IsClient c
      → assoc_get k c.sessions ≡ none
      → ((j : Bytes) → assoc_get j cs ≡ (if bytes_eq k j then new else assoc_get j c.connectors))
      → IsClient (record c { connectors = cs })
  connectors-IsClient h e law = record {
    distinct = h.distinct;
    apart = λ j. elim (Bool-cases (bytes_eq k j)) [
      | inl same ↦ inl (subst (λ x. assoc_get x c.sessions ≡ none) ((bytes_eq_iff k j).0 same) e)
      | inr other ↦ elim (h.apart j) [ inl a ↦ inl a | inr b ↦ inr (law j ∙ rw other b) ]
    ];
  }

  connectors-link :
      assoc_get k c.sessions ≡ none
      → ((j : Bytes) → assoc_get j cs ≡ (if bytes_eq k j then new else assoc_get j c.connectors))
      → (j : Bytes) → link (record c { connectors = cs }) j ≡ at_key (link c) k (link_of none new) j
  connectors-link e law j = elim (Bool-cases (bytes_eq k j)) [
    | inl same ↦
        let q = (bytes_eq_iff k j).0 same in
        rw (law j, same) (rw (subst (λ x. assoc_get x c.sessions ≡ none) q e))
    | inr other ↦ rw (law j, other)
  ]

-- A session at a key that is free.
module _ (c : Client) (k : Bytes) (s : ClientSession) (cs : List (Bytes × Bytes)) where
  inserted : Client
  inserted = record c { sessions = object_insert k s c.sessions; connectors = cs }

  inserted-IsClient :
      IsClient c
      → assoc_get k c.sessions ≡ none
      → Unnamed s.session_name c.sessions
      → ((j : Bytes) → assoc_get j cs ≡ (if bytes_eq k j then none else assoc_get j c.connectors))
      → IsClient inserted
  unfolding inserted
  inserted-IsClient h e u law = record {
    distinct =
        subst (λ (l : List (Bytes × ClientSession)). Distinct l)
          (sym (object_insert_new k s c.sessions e))
          (append-Distinct k s c.sessions h.distinct e u);
    apart = λ j. elim (Bool-cases (bytes_eq k j)) [
      | inl same ↦ inr (law j ∙ rw same)
      | inr other ↦ elim (h.apart j) [
        | inl a ↦ inl (assoc_get-object_insert k j s c.sessions e ∙ rw other a)
        | inr b ↦ inr (law j ∙ rw other b)
      ]
    ];
  }

  inserted-link :
      assoc_get k c.sessions ≡ none
      → ((j : Bytes) → assoc_get j cs ≡ (if bytes_eq k j then none else assoc_get j c.connectors))
      → (j : Bytes)
      → link inserted j ≡ at_key (link c) k (if s.is_cohab then open_cohab else open_remote) j
  unfolding inserted
  inserted-link e law j = elim (Bool-cases (bytes_eq k j)) [
    | inl same ↦ rw (law j, assoc_get-object_insert k j s c.sessions e, same)
    | inr other ↦ rw (law j, assoc_get-object_insert k j s c.sessions e, other)
  ]

link_session :
    (c : Client) (k : Bytes) (s : ClientSession)
    → assoc_get k c.sessions ≡ some s
    → link c k ≡ (if s.is_cohab then open_cohab else open_remote)
link_session c k s e = rw e

link_free :
    (c : Client) (k : Bytes)
    → link c k ≡ free
    → (assoc_get k c.sessions ≡ none) × (assoc_get k c.connectors ≡ none)
link_free c k h = ground arith

link_waiting :
    (c : Client) (k : Bytes)
    → link c k ≡ waiting
    → (assoc_get k c.sessions ≡ none) × (has_key k c.connectors ≡ true)
link_waiting c k h = ground arith

pub connect-Refines :
    (c : Client) (k dest : Bytes)
    → IsClient c
    → Refines (some (connect c k dest, [])) (opened_at (link c) k (link c k), [])
unfolding connect
connect-Refines c k dest h = elim (Option-cases (assoc_get k c.connectors)) [
  | inr (d, e) ↦ elim (h.apart k) [
    | inl f ↦ ((c, []), ground arith, h, (λ j. rw (e, f) refl), refl)
    | inr b ↦ absurd (ground arith)
  ]
  | inl e ↦ elim (Option-cases (assoc_get k c.sessions)) [
    | inl f ↦
        let law = λ (j : Bytes). assoc_get-object_insert k j dest c.connectors e in
        (
          (record c { connectors = object_insert k dest c.connectors }, []),
          ground arith,
          connectors-IsClient c (object_insert k dest c.connectors) k (some dest) h f law,
          (λ j.
              rw (e, f)
                (connectors-link c (object_insert k dest c.connectors) k (some dest) f law j)),
          refl,
        )
    | inr (s, f) ↦ ((c, []), ground arith, h, (λ j. ground arith), refl)
  ]
]

pub on_connection_failed-Refines :
    (c : Client) (k : Bytes)
    → IsClient c
    → link c k ≡ waiting
    → Refines (on_connection_failed c k) (at_key (link c) k free, connection_failed k ∷ [])
unfolding on_connection_failed
on_connection_failed-Refines c k h w =
    let f = link_waiting c k w in
    let law = λ (j : Bytes). assoc_get-erase k j c.connectors in
    (
      (record c { connectors = assoc_erase k c.connectors }, connection_failed k ∷ []),
      rw (f.1) refl,
      connectors-IsClient c (assoc_erase k c.connectors) k none h f.0 law,
      (λ j. connectors-link c (assoc_erase k c.connectors) k none f.0 law j),
      refl,
    )

pub on_connected-Refines :
    (c : Client) (k : Bytes) (fd : ℕ)
    → IsClient c
    → link c k ≡ waiting
    → Unnamed (remote_name c fd) c.sessions
    → Refines (on_connected c k fd) (at_key (link c) k open_remote, connected k ∷ [])
unfolding on_connected
on_connected-Refines c k fd h w u =
    let f = link_waiting c k w in
    let s : ClientSession = record { session_name = remote_name c fd; is_cohab = false } in
    let law = λ (j : Bytes). assoc_get-erase k j c.connectors in
    (
      (inserted c k s (assoc_erase k c.connectors), connected k ∷ []),
      rw (f.1) (unfold inserted in refl),
      inserted-IsClient c k s (assoc_erase k c.connectors) h f.0 u law,
      (λ j. inserted-link c k s (assoc_erase k c.connectors) f.0 law j),
      refl,
    )

pub connect_server-Refines :
    (c : Client) (k : Bytes)
    → IsClient c
    → link c k ≡ free
    → Unnamed (cohab_name c k) c.sessions
    → Refines (some (connect_server c k)) (at_key (link c) k open_cohab, [])
unfolding connect_server
connect_server-Refines c k h w u =
    let f = link_free c k w in
    let s : ClientSession = record { session_name = cohab_name c k; is_cohab = true } in
    let law : (j : Bytes)
        → assoc_get j c.connectors ≡ (if bytes_eq k j then none else assoc_get j c.connectors) =
      λ j. elim (Bool-cases (bytes_eq k j)) [
        | inl same ↦
            rw same (subst (λ x. assoc_get x c.connectors ≡ none) ((bytes_eq_iff k j).0 same) f.1)
        | inr other ↦ rw other refl
      ] in
    (
      (inserted c k s c.connectors, []),
      unfold inserted in ground (arith, f.0),
      inserted-IsClient c k s c.connectors h f.0 u law,
      (λ j. inserted-link c k s c.connectors f.0 law j),
      refl,
    )
