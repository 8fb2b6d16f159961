-- ===== src/InfoProvider/Ls.antt =====
-- The command ls of src/ObexInfoProvider.cpp.
use objxp.Common.{
  ℕ, ◌≡◌, ◌≢◌, refl, sym, ap, ◌∙◌, subst, Bool, true, List, [], ◌∷◌, ◌++◌, map, Option, none, some,
  arith, Bytes, bytes_eq, codes, getlines, In, starts_with,
}
use objxp.Path.{valid_obj_path, convert_to_dot_path}
use objxp.Path.Convert.{valid_obj_path-IsValid, tokens, convert_to_slash_path-convert_to_dot_path}
use objxp.Tree.{MetaTree, Notification, obj_of, get_meta_node, get_object}
use objxp.YPath.Back.{IsText}
use objxp.InfoProvider.{
  ObjectClasses, reply_entries, first_operand, entries_of, ls_body, handle_ls_command, run_command,
  answer_at, info_on_updated,
}
use objxp.InfoProvider.Argv.{IsWord}
use objxp.InfoProvider.Session.{session_path}
use objxp.InfoProvider.Children.{child_path, escaped, tokens-child_path, get_path-listed}
use objxp.InfoProvider.Cat.{build_argv-path}
use objxp.InfoProvider.Answer.{
  Replies, IsComparable, answer_at-Replies, info_on_updated-run_command,
}

append-ne : (l : List Bytes) (t : Bytes) → l ++ (t ∷ []) ≢ []
append-ne [] t e = cc
append-ne (u ∷ l) t e = cc

first_operand-path : (p : Bytes) → valid_obj_path p ≡ some true → first_operand (p ∷ []) ≡ some p
first_operand-path p h =
    let v = valid_obj_path-IsValid p h in rw v.shape (unfold first_operand bytes_eq in refl)

module _ {Obj : Type 0} (T : MetaTree Obj) where
  open T use {Node, value, children, get_path}

  node_of :
      (g : Option Node) (x : Obj)
      → obj_of T (elim g [ none ↦ none | some n ↦ value n ]) ≡ some x
      → (m : Node) × (g ≡ some m)
  node_of none x h = cc
  node_of (some n) x h = (n, refl)

  -- A node with an object is a node.
  get_object-node :
      (root : Node) (q e : Bytes) (x : Obj)
      → valid_obj_path q ≡ some true
      → convert_to_dot_path q ≡ some e
      → tokens e ≢ []
      → get_object T root q ≡ some (some x)
      → (m : Node) × (get_path root (tokens e) ≡ some m)
  get_object-node root q [] x hq he ne h = absurd (ne (unfold getlines in refl))
  get_object-node root q (c ∷ e) x hq he ne h =
      let reads : get_object T root q ≡ some (obj_of T (get_meta_node T root (c ∷ e))) =
        (unfold get_object in rw (hq, he) refl) in
      let read : obj_of T (get_meta_node T root (c ∷ e)) ≡ some x = cc (reads, h) in
      node_of (get_path root (tokens (c ∷ e))) x (unfold get_meta_node in read)

  module _ (live : ℕ → Bool) (equals : Obj → Obj → Option Bool) (C : ObjectClasses Obj) where
    open C use {get_string, parse_command}

    ls_body-entries :
        (root n : Node) (d : Bytes)
        → get_path root (tokens d) ≡ some n
        → ls_body T live equals C root d ≡ reply_entries (map (λ e. e.0) (children n))
    unfolding ls_body
    ls_body-entries root n [] h =
        let here : get_path root [] ≡ some n = (unfold getlines in h) in
        let same : root ≡ n = cc (T.get_path-nil root, here) in
        ap (λ t. entries_of T live equals C (some t)) same
    ls_body-entries root n (c ∷ d) h = ap (entries_of T live equals C) h

    -- A command "ls" with a valid path, put at the cmd path of a session whose name is not empty,
    -- has no slash, and gives a valid rsp path, provided that a comparison with the object at that
    -- path returns, where a child of the path has an object: onUpdated returns and puts a reply at
    -- the rsp path, with the id of the command and a list of names in which the child's name
    -- stands, with a backslash for each dot; and any other valid path reads as before.
    pub info_on_updated-ls :
        (name : Bytes) (log : Bool) (root : Node) (sid id text p k q : Bytes) (o x : Obj)
        → IsText sid
        → valid_obj_path (session_path sid (codes "rsp")) ≡ some true
        → IsComparable T live equals C root sid id
        → get_string o ≡ some text
        → parse_command text ≡ some (id, codes "ls " ++ p)
        → valid_obj_path p ≡ some true
        → IsText k
        → valid_obj_path (child_path p k) ≡ some true
        → get_object T root (child_path p k) ≡ some (some x)
        → valid_obj_path q ≡ some true
        → q ≢ session_path sid (codes "rsp")
        → (names : List Bytes) × (root' : Node) × (notes : List (Notification Obj)) × In
            (escaped k)
            names
          × (info_on_updated T live equals C name log root (session_path sid (codes "cmd")) o
              ≡ some (log, root', notes))
          × Replies T live equals C root sid id (reply_entries names) q root' notes
    info_on_updated-ls name log root sid id text p k q o x hs hr hc ht hm hp hk hv hx hq ne =
        let (d, hd, _) = convert_to_slash_path-convert_to_dot_path p hp in
        let (e, he, _) = convert_to_slash_path-convert_to_dot_path (child_path p k) hv in
        let te = tokens-child_path p k d e hp hk hv hd he in
        let (m, at) =
          get_object-node root (child_path p k) e x hv he
            (λ z. append-ne (tokens d) (escaped k) (sym te ∙ z)) hx in
        let (n, above, listed) =
          get_path-listed T root m (tokens d) (escaped k) (sym (ap (get_path root) te) ∙ at) in
        let (root', notes, run, replies) =
          answer_at-Replies T live equals C (ls_body T live equals C) name root sid id p d q hs hr
            hc hp hd hq ne in
        let word : IsWord (codes "ls") = ground arith in
        let first =
          ap (answer_at T live equals C (ls_body T live equals C) name root sid id)
            (first_operand-path p hp) in
        (
          map (λ e. e.0) (children n),
          root',
          notes,
          listed,
          info_on_updated-run_command T live equals C name log root root' notes sid id text
              (codes "ls " ++ p) (codes "ls" ∷ p ∷ []) o hs ht hm
              (build_argv-path (codes "ls") p word hp)
              (unfold run_command handle_ls_command starts_with in (first ∙ run)),
          subst (λ b. Replies T live equals C root sid id b q root' notes)
              (ls_body-entries root n d above) replies,
        )
