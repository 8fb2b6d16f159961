-- ===== src/InfoProvider/Answer.antt =====
-- How a command of src/ObexInfoProvider.cpp reaches its handler and the reply the object tree.
use objxp.Common.{
  ℕ, ◌≡◌, ◌≢◌, refl, ap, ◌∙◌, Bool, true, List, [], Option, some, Bytes, bytes_eq, codes,
}
use objxp.PropertyTree.{assoc_get}
use objxp.Path.{valid_obj_path, convert_to_dot_path}
use objxp.Tree.{MetaTree, Notification, get_object}
use objxp.Tree.Objects.{Stores, put_object_reads}
use objxp.YPath.{get_y_path_arg}
use objxp.YPath.Back.{IsText}
use objxp.InfoProvider.{
  ObjectClasses, ReplyBody, build_argv, answer_at, run_command, update_at, info_on_updated,
}
use objxp.InfoProvider.Session.{
  session_path, mk_y_path-rsp_path, parse_y_path-cmd_path, parse_y_path-rsp, parse_y_path-no_log,
}

module _ {Obj : Type 0} (T : MetaTree Obj) (live : ℕ → Bool) (equals : Obj → Obj → Option Bool)
    (C : ObjectClasses Obj) where
  open T use {Node}
  open C use {get_string, parse_command, json_object}

  -- The reply is put at the rsp path of the session, and the path `q` reads as before.
  abbrev pub Replies :
      Node → Bytes → Bytes → ReplyBody → Bytes → Node → List (Notification Obj) → Type 0
  Replies root sid id body q root' notes =
      Stores T live equals root root' (session_path sid (codes "rsp")) (json_object id body) notes
      × (get_object T root' q ≡ get_object T root q)

  -- The comparison of an object that is there with a reply returns.
  abbrev pub IsComparable : Node → Bytes → Bytes → Type 0
  IsComparable root sid id =
      (body : ReplyBody) (old : Obj)
      → get_object T root (session_path sid (codes "rsp")) ≡ some (some old)
      → (b : Bool) × (equals old (json_object id body) ≡ some b)

  pub answer_at-Replies :
      (body : Node → Bytes → ReplyBody) (name : Bytes) (root : Node) (sid id p d q : Bytes)
      → IsText sid
      → valid_obj_path (session_path sid (codes "rsp")) ≡ some true
      → IsComparable root sid id
      → valid_obj_path p ≡ some true
      → convert_to_dot_path p ≡ some d
      → valid_obj_path q ≡ some true
      → q ≢ session_path sid (codes "rsp")
      → (root' : Node) × (notes : List (Notification Obj)) × (answer_at T live equals C body name
            root sid id
            (some p)
          ≡ some (root', notes))
        × Replies root sid id (body root d) q root' notes
  answer_at-Replies body name root sid id p d q hs hr hc hp hd hq ne =
      let rsp = session_path sid (codes "rsp") in
      let (root', notes, run, stores, rest) =
        put_object_reads T live equals name root rsp (json_object id (body root d)) hr
          (hc (body root d)) in
      (root', notes, rw (hp, hd, mk_y_path-rsp_path sid hs) run, (stores, rest q hq ne))

  pub info_on_updated-run_command :
      (name : Bytes) (log : Bool) (root root' : Node) (notes : List (Notification Obj))
      (sid id text cmd : Bytes) (argv : List Bytes) (o : Obj)
      → IsText sid
      → get_string o ≡ some text
      → parse_command text ≡ some (id, cmd)
      → build_argv cmd ≡ argv
      → run_command T live equals C name root sid id argv ≡ some (root', notes)
      → info_on_updated T live equals C name log root (session_path sid (codes "cmd")) o
        ≡ some (log, root', notes)
  unfolding info_on_updated
  info_on_updated-run_command name log root root' notes sid id text cmd argv o hs ht hc ha hr =
      ap (update_at T live equals C name log root (session_path sid (codes "cmd")) o)
        (parse_y_path-cmd_path sid hs)
      ∙ (unfold get_y_path_arg assoc_get bytes_eq in rw (ht, hc, ha, hr) refl)

  -- The provider is told of its own replies, and ignores them.
  pub info_on_updated-own_reply :
      (name : Bytes) (log : Bool) (root : Node) (sid : Bytes) (o : Obj)
      → IsText sid
      → info_on_updated T live equals C name log root (session_path sid (codes "rsp")) o
        ≡ some (log, root, [])
  unfolding info_on_updated
  info_on_updated-own_reply name log root sid o hs =
      rw (parse_y_path-rsp sid hs, parse_y_path-no_log sid hs) refl
