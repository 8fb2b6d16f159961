-- ===== src/Server/Transaction/Holds.antt =====
-- What a tree of src/ObexTree.cpp reads after an element of a transaction.
use objxp.Common.{ℕ, ◌≡◌, ◌∙◌, refl, inl, inr, ◌⊎◌, Bool, true, List, Option, none, some, Bytes}
use objxp.Tree.{MetaTree, Notification, get_object}
use objxp.Tree.Objects.{Stores, kept, stored}
use objxp.Server.Transaction.{Element, element_put, element_del}
use objxp.Server.Transaction.Once.{element_path}

module _ {Obj : Type 0} (T : MetaTree Obj) (live : ℕ → Bool)
    (equals : Obj → Obj → Option Bool) where
  open T use {Node}

  -- What the path of an element reads afterwards: the object, or one that was there and is equal to
  -- it, or nothing.
  abbrev pub Holds : Node → Element Obj → Type 0
  Holds root (element_put p o opt) =
      (x : Obj) × (get_object T root p ≡ some (some x)) × ((x ≡ o) ⊎ (equals x o ≡ some true))
  Holds root (element_del p) = get_object T root p ≡ some none

  pub Stores-Holds :
      (root root' : Node) (p : Bytes) (o : Obj) (opt : Bytes) (notes : List (Notification Obj))
      → Stores T live equals root root' p o notes
      → Holds root' (element_put p o opt)
  Stores-Holds root root' p o opt notes (kept old before same after quiet) = (old, after, inr same)
  Stores-Holds root root' p o opt notes (stored after) = (o, after, inl refl)

  pub Holds-same :
      (root root' : Node) (e : Element Obj)
      → get_object T root' (element_path e) ≡ get_object T root (element_path e)
      → Holds root e
      → Holds root' e
  Holds-same root root' (element_put p o opt) s (x, h, k) = (x, s ∙ h, k)
  Holds-same root root' (element_del p) s h = s ∙ h
