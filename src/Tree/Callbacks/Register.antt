-- ===== src/Tree/Callbacks/Register.antt =====
-- A registered callback is told of later changes: registerCallback, then putObject, of
-- src/ObexTree.cpp.
use objxp.Common.{ℕ, ◌≡◌, Bool, true, List, [], ◌∷◌, ◌++◌, Option, Bytes}
use objxp.Path.{CallbackType, current_node_only, immediate_children, all_descendants}
use objxp.Path.Convert.{tokens}
use objxp.Tree.{MetaNode, MetaTree, mem, obj_of, a_cbs_of, i_cbs_of, c_cbs_of}
use objxp.Tree.Observe.{observe}

-- How the tokens of an object path stand to those of a callback path of each kind.
abbrev pub Selects : CallbackType → List Bytes → List Bytes → Type 0
Selects current_node_only b ks = ks ≡ b
Selects immediate_children b ks = (k : Bytes) × (ks ≡ b ++ (k ∷ []))
Selects all_descendants b ks = (k : Bytes) × (rs : List Bytes) × (ks ≡ b ++ (k ∷ rs))

module _ {Obj : Type 0} (T : MetaTree Obj) (live : ℕ → Bool) (address : ℕ → ℕ) where
  open T use {Node, value, put_path}

  abbrev pub callbacks_of : CallbackType → Option (MetaNode Obj) → List ℕ
  callbacks_of current_node_only = c_cbs_of T
  callbacks_of immediate_children = i_cbs_of T
  callbacks_of all_descendants = a_cbs_of T

  -- What registerCallback of a valid callback path leaves.
  pub record Registers (root root' : Node) (ty : CallbackType) (dot : Bytes) (cb : ℕ) : Type 0 where
    pub objects : (ks : List Bytes) → observe T (obj_of T) root' ks ≡ observe T (obj_of T) root ks
    pub present : mem cb (observe T (callbacks_of ty) root' (tokens dot)) ≡ true
