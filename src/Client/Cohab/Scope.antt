-- ===== src/Client/Cohab/Scope.antt =====
-- What an ObexCohabClientSession of src/ObexClient.cpp shows of the tree: what its subscriptions
-- match.
use objxp.Common.{
  ◌≡◌, ◌↔◌, refl, ap, ◌∙◌, Bool, true, false, List, [], ◌∷◌, Option, none, some, Bytes, is_empty,
  All, In, arith, Bool-cases, inl, inr,
}
use objxp.Path.{obj_path_matches_cb_path}
use objxp.Tree.{MetaTree, get_object}
use objxp.Client.Cohab.{Cohab, in_scope, cohab_get_object}
use objxp.Client.Cohab.Forward.{Returns}

-- One of the subscribed paths matches.
abbrev pub InScope : Bytes → List Bytes → Type 0
InScope p paths = (c : Bytes) × In c paths × (obj_path_matches_cb_path p c ≡ some true)

in_scope_cases :
    (p : Bytes) (paths : List Bytes)
    → All (Returns p) paths
    → (b : Bool) × (in_scope p paths ≡ some b) × ((b ≡ true) ↔ InScope p paths)
unfolding in_scope
in_scope_cases p [] h = (false, refl, ((λ e. cc), λ (c, i, e). absurd i))
in_scope_cases p (c ∷ cs) ((b, e), hs) = elim (Bool-cases b) [
  | inl t ↦ (true, rw (e, t) refl, ((λ q. (c, inl refl, e ∙ ap (λ x. some x) t)), λ i. refl))
  | inr f ↦
      let (b', run, iff) = in_scope_cases p cs hs in
      (
        b',
        rw (e, f) run,
        (
          (λ q. let (d, i, m) = iff.0 q in (d, inr i, m)),
          λ (d, i, m). elim i [
            | inl q ↦ absurd (ground (arith, e, ap (obj_path_matches_cb_path p) q))
            | inr j ↦ iff.1 (d, j, m)
          ],
        ),
      )
]

nothing_InScope : (p : Bytes) (paths : List Bytes) → is_empty paths ≡ true → ¬ InScope p paths
nothing_InScope p [] h (c, i, e) = i
nothing_InScope p (d ∷ l) h (c, i, e) = cc

module _ {Obj : Type 0} (T : MetaTree Obj) where
  open T use {Node}

  -- Where the match of a path with each subscribed path returns, getObject of the session returns,
  -- and its result is an object exactly if the tree has that object at the path and a subscribed
  -- path matches it; else it is null.
  pub cohab_get_object-InScope :
      (s : Cohab) (root : Node) (p : Bytes) (found : Option Obj)
      → All (Returns p) s.subscribed_paths
      → get_object T root p ≡ some found
      → (r : Option Obj) × (cohab_get_object T s root p ≡ some r)
        × ((o : Obj) → (r ≡ some o) ↔ ((found ≡ some o) × InScope p s.subscribed_paths))
  unfolding cohab_get_object
  cohab_get_object-InScope s root p found h e = elim (Bool-cases (is_empty s.subscribed_paths)) [
    | inl none_there ↦ (
      none,
      rw none_there refl,
      λ o. ((λ q. cc), λ (q, i). absurd (nothing_InScope p s.subscribed_paths none_there i)),
    )
    | inr some_there ↦
        let (b, run, iff) = in_scope_cases p s.subscribed_paths h in
        elim (Bool-cases b) [
          | inl t ↦ (found, rw (some_there, run, t) e, λ o. ((λ q. (q, iff.0 t)), λ (q, i). q))
          | inr f ↦ (
            none,
            rw (some_there, run, f) refl,
            λ o. ((λ q. cc), λ (q, i). absurd (ground (arith, iff.1 i))),
          )
        ]
  ]
