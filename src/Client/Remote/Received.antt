-- ===== src/Client/Remote/Received.antt =====
-- What a remote session of src/ObexClient.cpp makes of a transaction that it receives.
use objxp.Common.{
  ℕ, ◌≡◌, ◌≢◌, refl, sym, ◌∙◌, Bool, true, List, [], ◌∷◌, ◌++◌, map, Option, some, Bytes, All,
  All-append, subst, map-append,
}
use objxp.Path.{valid_obj_path}
use objxp.Tree.{MetaTree, Notification, get_object}
use objxp.Tree.Objects.{put_object_reads, del_object_reads}
use objxp.Server.Transaction.{Element, element_put, element_del, told_of}
use objxp.Server.Transaction.Told.{TellsOnce, put_object-TellsOnce, del_object-TellsOnce}
use objxp.Server.Transaction.Once.{
  element_path, element_change, DistinctPaths, IsAmong, told-IsAmong, later-IsAmong, flipped,
}
use objxp.Server.Transaction.Holds.{Holds, Stores-Holds, Holds-same}
use objxp.Client.Remote.{remote_handle_element, remote_handle_transaction}

module _ {Obj : Type 0} (T : MetaTree Obj) (live : ℕ → Bool) (equals : Obj → Obj → Option Bool)
    (key : Bytes) where
  open T use {Node}

  element_received :
      ((x y : Obj) → (b : Bool) × (equals x y ≡ some b))
      → (root : Node) (e : Element Obj) → valid_obj_path (element_path e) ≡ some true
      → (root' : Node) × (notes : List (Notification Obj)) × (remote_handle_element T live equals
            key root e
          ≡ some (root', notes))
        × TellsOnce (element_change e) notes
        × Holds T live equals root' e
        × ((q : Bytes)
            → valid_obj_path q ≡ some true
            → q ≢ element_path e
            → get_object T root' q ≡ get_object T root q)
  unfolding remote_handle_element
  element_received total root (element_put p o opt) hp =
      let (root', notes, run, stores, rest) =
        put_object_reads T live equals key root p o hp (λ old _. total old o) in
      (
        root',
        notes,
        run,
        put_object-TellsOnce T live key equals root root' p o notes hp run,
        Stores-Holds T live equals root root' p o opt notes stores,
        rest,
      )
  element_received total root (element_del p) hp =
      let (root', notes, run, gone, rest) = del_object_reads T live key root p hp in
      (root', notes, run, del_object-TellsOnce T live key root root' p notes hp run, gone, rest)

  -- A remote session receives a transaction of elements at different valid paths, where a
  -- comparison of objects always returns. Then handleTransaction returns; each path of an element
  -- reads in the session's tree as the element says, or as an equal object that was there, and any
  -- other valid path as before; and the callbacks are called for nothing but elements of the
  -- transaction.
  pub remote_handle_transaction-Holds :
      (root : Node) (es : List (Element Obj))
      → ((x y : Obj) → (b : Bool) × (equals x y ≡ some b))
      → All (λ e. valid_obj_path (element_path e) ≡ some true) es
      → DistinctPaths es
      → (root' : Node) × (notes : List (Notification Obj)) × (remote_handle_transaction T live
            equals key root es
          ≡ some (root', notes))
        × All (Holds T live equals root') es
        × All (IsAmong (map element_change es)) (map told_of notes)
        × ((q : Bytes)
            → valid_obj_path q ≡ some true
            → All (λ e. q ≢ element_path e) es
            → get_object T root' q ≡ get_object T root q)
  unfolding remote_handle_transaction
  remote_handle_transaction-Holds root [] total v d = (root, [], refl, tt, tt, λ q hq ne. refl)
  remote_handle_transaction-Holds root (e ∷ es) total (v, vs) (d, ds) =
      let (root1, notes, run, told, holds, rest) = element_received total root e v in
      let (root2, more, runs, held, among, others) =
        remote_handle_transaction-Holds root1 es total vs ds in
      let (cbs, _, shape) = told in
      let ch = element_change e in
      (
        root2,
        notes ++ more,
        rw (run, runs) refl,
        (
          Holds-same T live equals root1 root2 e (others (element_path e) v (flipped e es d)) holds,
          held,
        ),
        subst (All (IsAmong (ch ∷ map element_change es))) (sym (map-append told_of notes more)) (
            All-append (IsAmong (ch ∷ map element_change es)) (map told_of notes) (map told_of more)
              (subst (All (IsAmong (ch ∷ map element_change es))) (sym shape)
                (told-IsAmong ch (map element_change es) cbs))
              (later-IsAmong ch (map element_change es) (map told_of more) among)),
        λ q hq (ne, nes). others q hq nes ∙ rest q hq ne,
      )
