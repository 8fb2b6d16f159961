-- ===== src/Server/Transaction/Elements.antt =====
-- The loop of handleTransaction of src/ObexServer.cpp over elements with different paths.
use objxp.Common.{
  ℕ, ◌≡◌, ◌≢◌, refl, sym, ap, ◌∙◌, subst, Bool, true, List, [], ◌∷◌, ◌++◌, map, Option, some, Bytes,
  bytes_eq, All, All-append, In, if◌then◌else◌, >>=-eq-some,
}
use objxp.MsgIo.Transaction.{dod_opt}
use objxp.Path.{valid_obj_path}
use objxp.Tree.{MetaTree, Notification, get_object}
use objxp.Tree.Observe.{observe}
use objxp.Tree.Registered.{live_callbacks, live_callbacks-put_object, live_callbacks-del_object}
use objxp.Tree.Objects.{put_object_reads, del_object_reads}
use objxp.Server.{Change, change_path, Server, changes_run}
use objxp.Server.Open.{changes_for, Once}
use objxp.Server.Objects.{ServerSession, register_dod, handle_put_object}
use objxp.Server.Transaction.{
  Element, element_put, element_del, told_of, handle_element, handle_elements,
}
use objxp.Server.Transaction.Told.{TellsOnce, del_object-TellsOnce, put_object-TellsOnce}
use objxp.Server.Transaction.Reach.{
  Reaches, Reaches-later, changes_for-In_first, put_object-reaches, del_object-reaches,
}
use objxp.Server.Transaction.Exact.{
  Exact, expected_of, expected, expected-later, changes_for-append, put_object-Exact,
  del_object-Exact,
}
use objxp.Server.Transaction.Once.{
  flipped, element_path, element_change, element_change-path, DistinctPaths, IsAmong, IsNew,
  IsNew-has_change, Once-told, changes_run-append, told-IsAmong, later-IsAmong, still-IsNew,
}
use objxp.Server.Transaction.Holds.{Holds, Stores-Holds, Holds-same}

module _ {Obj : Type 0} (T : MetaTree Obj) (live : ℕ → Bool) (equals : Obj → Obj → Option Bool)
    (alive : Obj → Bool) (name : Bytes) where
  open T use {Node}

  -- One element.
  element_done :
      ((x y : Obj) → (b : Bool) × (equals x y ≡ some b))
      → (root : Node) (sender : ServerSession Obj) (e : Element Obj)
      → valid_obj_path (element_path e) ≡ some true
      → (root' : Node) × (sender' : ServerSession Obj) × (notes : List (Notification Obj))
        × (handle_element T live equals alive name root sender e ≡ some (root', sender', notes))
        × TellsOnce (element_change e) notes
        × Reaches T live equals name root (map told_of notes) e
        × ((j : ℕ) → live j ≡ true → Exact T live equals name root j notes e)
        × ((ks : List Bytes)
            → observe T (live_callbacks T live) root' ks
              ≡ observe T (live_callbacks T live) root ks)
        × Holds T live equals root' e
        × ((q : Bytes)
            → valid_obj_path q ≡ some true
            → q ≢ element_path e
            → get_object T root' q ≡ get_object T root q)
  unfolding handle_element
  element_done total root sender (element_put p o opt) hp =
      let (root', notes, run, stores, rest) =
        put_object_reads T live equals name root p o hp (λ old _. total old o) in
      (
        root',
        record sender {
          dod_map =
              if bytes_eq opt dod_opt
              then register_dod alive sender.dod_map p o
              else sender.dod_map;
        },
        notes,
        (unfold handle_put_object in rw run refl),
        put_object-TellsOnce T live name equals root root' p o notes hp run,
        (λ d j hd differs alive registered.
            put_object-reaches T live equals name root root' p d o opt notes j hp hd run differs
              alive registered),
        (λ j alive_j.
            put_object-Exact T live equals name total root root' p o opt notes j hp run alive_j),
        live_callbacks-put_object T live equals name root root' p o notes run,
        Stores-Holds T live equals root root' p o opt notes stores,
        rest,
      )
  element_done total root sender (element_del p) hp =
      let (root', notes, run, gone, rest) = del_object_reads T live name root p hp in
      (
        root',
        sender,
        notes,
        rw run refl,
        del_object-TellsOnce T live name root root' p notes hp run,
        (λ d j hd differs alive registered.
            del_object-reaches T live equals name root root' p d notes j hp hd run differs alive
              registered),
        (λ j alive_j. del_object-Exact T live equals name root root' p notes j hp run alive_j),
        live_callbacks-del_object T live name root root' p notes run,
        gone,
        rest,
      )

  finish :
      (root : Node) (sender : ServerSession Obj) (s s' : Server Obj)
      → changes_run live s [] ≡ some s'
      → handle_elements T live equals alive name root sender s [] ≡ some (root, sender, s')
  unfolding handle_elements changes_run
  finish root sender s s' h = cc h

  reached_later :
      (root root' : Node) (mine cs : List (ℕ × Change Obj)) (path : Bytes) (es : List (Element Obj))
      → ((q : Bytes)
          → valid_obj_path q ≡ some true
          → q ≢ path
          → get_object T root' q ≡ get_object T root q)
      → All (λ e. valid_obj_path (element_path e) ≡ some true) es
      → All (λ e. element_path e ≢ path) es
      → ((ks : List Bytes)
          → observe T (live_callbacks T live) root' ks ≡ observe T (live_callbacks T live) root ks)
      → All (Reaches T live equals name root' cs) es
      → All (Reaches T live equals name root (mine ++ cs)) es
  reached_later root root' mine cs path [] rest v d keeps h = tt
  reached_later root root' mine cs path (e ∷ es) rest (v, vs) (d, ds) keeps (h, hs) = (
    Reaches-later T live equals name root root' mine cs e (rest (element_path e) v d) keeps h,
    reached_later root root' mine cs path es rest vs ds keeps hs,
  )

  nothing : (root : Node) (j : ℕ) → changes_for j [] ≡ expected T live equals name root j []
  unfolding changes_for expected
  nothing root j = refl

  expects :
      (root : Node) (e : Element Obj) (es : List (Element Obj)) (mine cs : List (ℕ × Change Obj))
      (j : ℕ)
      → changes_for j mine ≡ expected_of T live equals name root j e
      → changes_for j cs ≡ expected T live equals name root j es
      → changes_for j (mine ++ cs) ≡ expected T live equals name root j (e ∷ es)
  unfolding expected
  expects root e es mine cs j h k = changes_for-append j mine cs ∙ rw (h, k) refl

  -- All elements: what the sessions are told is a list of changes.
  pub elements_done :
      ((x y : Obj) → (b : Bool) × (equals x y ≡ some b))
      → (root : Node) (sender : ServerSession Obj) (es : List (Element Obj))
        (before : List (ℕ × Change Obj))
      → All (λ e. valid_obj_path (element_path e) ≡ some true) es
      → DistinctPaths es
      → All (λ e. IsNew (element_path e) before) es
      → (root' : Node) × (sender' : ServerSession Obj) × (cs : List (ℕ × Change Obj)) × ((s
            s' : Server Obj)
          → changes_run live s cs ≡ some s'
          → handle_elements T live equals alive name root sender s es ≡ some (root', sender', s'))
        × Once before cs
        × All (IsAmong (map element_change es)) cs
        × All (Reaches T live equals name root cs) es
        × ((j : ℕ) → live j ≡ true → changes_for j cs ≡ expected T live equals name root j es)
        × All (Holds T live equals root') es
        × ((q : Bytes)
            → valid_obj_path q ≡ some true
            → All (λ e. q ≢ element_path e) es
            → get_object T root' q ≡ get_object T root q)
  unfolding handle_elements
  elements_done total root sender [] before v d n = (
    root,
    sender,
    [],
    (λ s s' h. finish root sender s s' h),
    tt,
    tt,
    tt,
    (λ j _. nothing root j),
    tt,
    λ q hq ne. refl,
  )
  elements_done total root sender (e ∷ es) before (v, vs) (d, ds) (n, ns) =
      let (root1, sender1, notes, run, told, reaches, exact, keeps, holds, rest) =
        element_done total root sender e v in
      let (cbs, dist, shape) = told in
      let ch = element_change e in
      let mine = map (λ c. (c, ch)) cbs in
      let (root2, sender2, cs, runs, once, within, reach_on, exact_on, held, others) =
        elements_done total root1 sender1 es (before ++ mine) vs ds
          (still-IsNew e before cbs es ns d) in
      let fresh : IsNew (change_path ch) before =
        subst (λ p. IsNew p before) (sym (element_change-path e)) n in
      (
        root2,
        sender2,
        mine ++ cs,
        (λ s s' h.
            let (t, first, then_on) =
              >>=-eq-some (changes_run live s mine) (λ u. changes_run live u cs)
                (sym (changes_run-append live s mine cs) ∙ h) in
            let at_once : changes_run live s (map told_of notes) ≡ some t =
              ap (changes_run live s) shape ∙ first in
            rw (run, at_once) (runs t s' then_on)),
        Once-told ch cbs before cs dist (λ i _. IsNew-has_change i (change_path ch) before fresh)
            once,
        All-append (IsAmong (map element_change (e ∷ es))) mine cs
            (told-IsAmong ch (map element_change es) cbs)
            (later-IsAmong ch (map element_change es) cs within),
        (
          (λ d j hd differs alive registered. changes_for-In_first j ch mine cs (
              subst (λ l. In ch (changes_for j l)) shape
                (reaches d j hd differs alive registered))),
          reached_later root root1 mine cs (element_path e) es rest vs d keeps reach_on,
        ),
        (λ j alive_j.
            expects root e es mine cs j (ap (changes_for j) (sym shape) ∙ exact j alive_j) (
              exact_on j alive_j
              ∙ expected-later T live equals name root root1 (element_path e) j es alive_j rest
                  keeps vs d)),
        (
          Holds-same T live equals root1 root2 e (others (element_path e) v (flipped e es d)) holds,
          held,
        ),
        λ q hq (ne, nes). others q hq nes ∙ rest q hq ne,
      )
