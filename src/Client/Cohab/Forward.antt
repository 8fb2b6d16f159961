-- ===== src/Client/Cohab/Forward.antt =====
-- Who is told when an ObexCohabClientSession of src/ObexClient.cpp forwards a change.
use objxp.Common.{
  ℕ, ◌≡◌, refl, ap, ◌∙◌, Bool, false, ◌&&◌, ◌||◌, List, [], ◌∷◌, map, Option, none, some, Bytes,
  bytes_eq, if◌then◌else◌, ◌>>=◌, All, arith, Bool-cases, inl, inr,
}
use objxp.Path.{obj_path_matches_cb_path}
use objxp.PropertyTree.{assoc_get}
use objxp.Tree.{updated, deleted, mem, add_to_callback_set, drop_dead}
use objxp.Tree.Notify.{Distinct, mem-add_to_callback_set, Distinct-add_to_callback_set}
use objxp.Tree.Registered.{drop_dead_idem}
use objxp.Client.Cohab.{
  Cohab, callbacks_at, get_callback_set, forward_update_callback, forward_delete_callback,
}

-- Whether a path matches a callback path.
abbrev pub matched : Bytes → Bytes → Bool
matched p c = elim (obj_path_matches_cb_path p c) [ none ↦ false | some b ↦ b ]

-- The match with a callback path returns.
abbrev pub Returns : Bytes → Bytes → Type 0
Returns p c = (b : Bool) × (obj_path_matches_cb_path p c ≡ some b)

-- Whether a callback is registered at a callback path that matches.
abbrev pub listens : Bytes → List (Bytes × List ℕ) → ℕ → Bool
listens p [] c = false
listens p ((path, m) ∷ l) c = (matched p path && mem c m) || listens p l c

module _ (live : ℕ → Bool) (p : Bytes) where
  rest_kept :
      (path q : Bytes) (m m' : List ℕ) (l l' : List (Bytes × List ℕ))
      → drop_dead live m' ≡ drop_dead live m
      → drop_dead live (callbacks_at q l') ≡ drop_dead live (callbacks_at q l)
      → drop_dead live (callbacks_at q ((path, m') ∷ l'))
        ≡ drop_dead live (callbacks_at q ((path, m) ∷ l))
  unfolding assoc_get
  rest_kept path q m m' l l' h k = elim (Bool-cases (bytes_eq path q)) [
    | inl t ↦ rw (t, callbacks_at) h
    | inr f ↦ rw (f, callbacks_at) k
  ]

  get_callback_set-members :
      (l : List (Bytes × List ℕ)) (set : List ℕ)
      → All (λ e. Returns p e.0) l
      → Distinct set
      → (r : List ℕ × List (Bytes × List ℕ)) × (get_callback_set live p l set ≡ some r)
        × Distinct r.0
        × ((c : ℕ) → mem c r.0 ≡ (mem c set || (live c && listens p l c)))
        × ((path : Bytes)
            → drop_dead live (callbacks_at path r.1) ≡ drop_dead live (callbacks_at path l))
  unfolding get_callback_set
  get_callback_set-members [] set h d = ((set, []), refl, d, (λ c. ground arith), λ path. refl)
  get_callback_set-members ((path, m) ∷ l) set ((b, e), hs) d =
      let set' = if b then add_to_callback_set live set m else set in
      let m' = if b then drop_dead live m else m in
      let (r, run, ds, told, kept) = get_callback_set-members l set' hs (elim (Bool-cases b) [
        | inl t ↦ rw t (Distinct-add_to_callback_set live set m d)
        | inr f ↦ rw f d
      ]) in
      (
        (r.0, (path, m') ∷ r.1),
        rw e (ap (λ x. x >>= λ q. some (q.0, (path, m') ∷ q.1)) run),
        ds,
        (λ c. told c ∙ elim (Bool-cases b) [
          | inl t ↦ rw t (ground (arith, e, mem-add_to_callback_set live c set m))
          | inr f ↦ rw f (ground (arith, e))
        ]),
        (λ q.
            rest_kept path q m m' l r.1
              (elim (Bool-cases b) [ inl t ↦ rw t (drop_dead_idem live m) | inr f ↦ rw f refl ])
              (kept q)),
      )

module _ (live : ℕ → Bool) {Obj : Type 0} where
  -- Where the match of a path with each callback path of the session returns, forwarding an update
  -- or a removal at the path returns. It calls onUpdated or onDeleted once on each live callback
  -- that the session has at a callback path that matches, and on no other, with the arguments that
  -- the session was called with; and the session keeps its live callbacks at each callback path.
  pub forward-tells :
      (s : Cohab) (src p : Bytes) (new old : Obj) (before : Option Obj)
      → All (λ e. Returns p e.0) s.cb_map
      → (s' : Cohab) × (cbs : List ℕ) × (forward_update_callback live s src p new before
          ≡ some (s', map (λ cb. updated cb src p new before) cbs))
        × (forward_delete_callback live s src p old
            ≡ some (s', map (λ cb. deleted cb src p old) cbs))
        × Distinct cbs
        × ((c : ℕ) → mem c cbs ≡ (live c && listens p s.cb_map c))
        × ((path : Bytes)
            → drop_dead live (callbacks_at path s'.cb_map)
              ≡ drop_dead live (callbacks_at path s.cb_map))
  forward-tells s src p new old before h =
      let (r, run, ds, told, kept) = get_callback_set-members live p s.cb_map [] h tt in
      (
        record s { cb_map = r.1 },
        r.0,
        unfold forward_update_callback in rw run refl,
        unfold forward_delete_callback in rw run refl,
        ds,
        (λ c. told c ∙ (unfold mem in refl)),
        kept,
      )
