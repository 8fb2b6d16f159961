-- ===== src/InfoProvider/Cat.antt =====
-- The command cat of src/ObexInfoProvider.cpp.
use objxp.Common.{
  ℕ, ◌≡◌, ◌≢◌, refl, Bool, true, false, List, [], ◌∷◌, ◌++◌, Option, some, arith, Bytes, All, Lacks,
  codes, join, starts_with,
}
use objxp.Path.{all_path_chars, valid_obj_path}
use objxp.Path.Convert.{valid_obj_path-path_chars, convert_to_slash_path-convert_to_dot_path}
use objxp.Tree.{MetaTree, Notification, obj_of, get_meta_node, get_object}
use objxp.YPath.Back.{IsText}
use objxp.InfoProvider.{
  ObjectClasses, is_delim, build_argv, object_body, cat_body, handle_cat_command, run_command,
  info_on_updated,
}
use objxp.InfoProvider.Argv.{IsWord, build_argv-join}
use objxp.InfoProvider.Session.{session_path}
use objxp.InfoProvider.Answer.{
  Replies, IsComparable, answer_at-Replies, info_on_updated-run_command, info_on_updated-own_reply,
}

path_chars-IsWord :
    (s : Bytes) → all_path_chars s ≡ true → All (λ c. is_delim c ≡ false) s × Lacks 0 s
unfolding all_path_chars
path_chars-IsWord [] h = (tt, tt)
path_chars-IsWord (c ∷ s) h =
    let below = path_chars-IsWord s (ground arith) in
    ((ground arith, below.0), ((λ e. ground arith), below.1))

pub valid_obj_path-IsWord : (p : Bytes) → valid_obj_path p ≡ some true → IsWord p
valid_obj_path-IsWord [] h = unfold valid_obj_path in cc
valid_obj_path-IsWord (c ∷ s) h =
    let chars = path_chars-IsWord (c ∷ s) (valid_obj_path-path_chars (c ∷ s) h) in
    ((λ e. cc), chars.0, chars.1)

-- A command and a path make an argv of both.
pub build_argv-path :
    (w p : Bytes)
    → IsWord w
    → valid_obj_path p ≡ some true
    → build_argv (w ++ (b' ' ∷ p)) ≡ w ∷ p ∷ []
build_argv-path w p hw hp =
    unfold join in build_argv-join (w ∷ p ∷ []) (hw, (valid_obj_path-IsWord p hp, tt)) (omega arith)

module _ {Obj : Type 0} (T : MetaTree Obj) (live : ℕ → Bool) (equals : Obj → Obj → Option Bool)
    (C : ObjectClasses Obj) where
  open T use {Node}
  open C use {get_string, parse_command}

  -- A command "cat" with a valid path, put at the cmd path of a session whose name is not empty,
  -- has no slash, and gives a valid rsp path, provided that a comparison with the object at that
  -- path returns: onUpdated returns and puts a reply at the rsp path, with the id of the command
  -- and the error or the text that getObject of that path stands for; any other valid path reads as
  -- before; and onUpdated for the reply itself does nothing.
  pub info_on_updated-cat :
      (name : Bytes) (log : Bool) (root : Node) (sid id text p q : Bytes) (o reply : Obj)
      → IsText sid
      → valid_obj_path (session_path sid (codes "rsp")) ≡ some true
      → IsComparable T live equals C root sid id
      → get_string o ≡ some text
      → parse_command text ≡ some (id, codes "cat " ++ p)
      → valid_obj_path p ≡ some true
      → valid_obj_path q ≡ some true
      → q ≢ session_path sid (codes "rsp")
      → (found : Option Obj) × (root' : Node) × (notes : List (Notification Obj)) × (get_object T
            root p
          ≡ some found)
        × (info_on_updated T live equals C name log root (session_path sid (codes "cmd")) o
            ≡ some (log, root', notes))
        × Replies T live equals C root sid id (object_body T live equals C found) q root' notes
        × (info_on_updated T live equals C name log root' (session_path sid (codes "rsp")) reply
            ≡ some (log, root', []))
  info_on_updated-cat name log root sid id text p q o reply hs hr hc ht hm hp hq ne =
      let (d, hd, _) = convert_to_slash_path-convert_to_dot_path p hp in
      let (root', notes, run, replies) =
        answer_at-Replies T live equals C (cat_body T live equals C) name root sid id p d q hs hr hc
          hp hd hq ne in
      let word : IsWord (codes "cat") = ground arith in
      (
        obj_of T (get_meta_node T root d),
        root',
        notes,
        (unfold get_object in rw (hp, hd) refl),
        info_on_updated-run_command T live equals C name log root root' notes sid id text
            (codes "cat " ++ p) (codes "cat" ∷ p ∷ []) o hs ht hm
            (build_argv-path (codes "cat") p word hp)
            (unfold run_command handle_cat_command starts_with in run),
        (unfold cat_body in replies),
        info_on_updated-own_reply T live equals C name log root' sid reply hs,
      )
