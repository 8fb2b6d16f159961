-- ===== src/InfoProvider/Tests.antt =====
-- Tests of src/ObexInfoProvider.cpp on a tree of texts.
use objxp.Common.{
  ℕ, ◌≡◌, refl, Bool, true, false, List, [], ◌∷◌, ◌++◌, Option, none, some, arith, Bytes, codes,
  bytes_eq, contains, replace, getlines, join, In,
}
use objxp.PropertyTree.{assoc_get}
use objxp.PropertyTree.Rose.{Rose, rose, kid, nil, rose_tree, rose_get_path}
use objxp.Path.{valid_obj_path, convert_to_dot_path, last_byte, has_double_slash, all_path_chars}
use objxp.Tree.{MetaNode, MetaTree, Notification, get_object, get_meta_node}
use objxp.Tree.Callbacks.{object_insert}
use objxp.YPath.{before, behind, part_loop, parse_y_path}
use objxp.YPath.Back.{IsText}
use objxp.InfoProvider.{
  ReplyBody, reply_err, reply_text, reply_encoded, reply_entries, ObjectClasses, first_operand,
  encode, object_body, info_on_updated,
}
use objxp.InfoProvider.Session.{session_path}
use objxp.InfoProvider.Answer.{Replies, IsComparable}
use objxp.InfoProvider.Cat.{info_on_updated-cat}
use objxp.InfoProvider.Children.{child_path, escaped}
use objxp.InfoProvider.Ls.{info_on_updated-ls}

abbrev T : MetaTree Bytes
T = rose_tree (Option (MetaNode Bytes))

abbrev all_live : ℕ → Bool
all_live c = true

abbrev equals : Bytes → Bytes → Option Bool
equals a b = some (bytes_eq a b)

abbrev body_text : ReplyBody → Bytes
body_text (reply_err s) = codes "err " ++ s
body_text (reply_text s) = codes "rsp " ++ s
body_text (reply_encoded s) = codes "enc " ++ s
body_text (reply_entries names) = codes "ls " ++ join b',' names

-- A command is an id and a command line with a semicolon between them.
abbrev C : ObjectClasses Bytes
C = record {
  get_bool = λ o. some (bytes_eq o (codes "true"));
  get_string = λ o. some o;
  parse_command = λ s. some (before b';' s, behind b';' s);
  json_object = λ id body. id ++ (b';' ∷ body_text body);
  serialized = λ o. (codes "ObexStringObject", o);
}

-- The object "x" at /a.
abbrev root : Rose (Option (MetaNode Bytes))
root = rose none (
    kid (codes "a")
      (rose (some (record { c_cbs = []; i_cbs = []; a_cbs = []; o_obj = some (codes "x") })) nil)
      nil)

abbrev sid : Bytes
sid = codes "c-1"

sid-IsText : IsText sid
sid-IsText = ground arith

a-IsText : IsText (codes "a")
a-IsText = ground arith

rsp-valid : valid_obj_path (session_path sid (codes "rsp")) ≡ some true
unfolding valid_obj_path bytes_eq last_byte has_double_slash all_path_chars
rsp-valid = refl

a-valid : valid_obj_path (codes "/a") ≡ some true
unfolding valid_obj_path bytes_eq last_byte has_double_slash all_path_chars
a-valid = refl

root-valid : valid_obj_path (codes "/") ≡ some true
unfolding valid_obj_path bytes_eq
root-valid = refl

a-child : child_path (codes "/") (codes "a") ≡ codes "/a"
unfolding bytes_eq
a-child = refl

a-holds : get_object T root (codes "/a") ≡ some (some (codes "x"))
unfolding get_object valid_obj_path bytes_eq last_byte has_double_slash all_path_chars
    convert_to_dot_path contains replace get_meta_node rose_get_path getlines assoc_get
a-holds = refl

comparable : IsComparable T all_live equals C root sid (codes "1")
comparable body old h = (bytes_eq old (codes "1" ++ (b';' ∷ body_text body)), refl)

cat_a : C.parse_command (codes "1;cat /a") ≡ some (codes "1", codes "cat " ++ codes "/a")
unfolding before behind
cat_a = refl

ls_root : C.parse_command (codes "1;ls /") ≡ some (codes "1", codes "ls " ++ codes "/")
unfolding before behind
ls_root = refl

info_on_updated-cat_example :
    (found : Option Bytes) × (root' : Rose (Option (MetaNode Bytes))) × (notes : List
      (Notification Bytes))
    × (get_object T root (codes "/a") ≡ some found)
    × (info_on_updated T all_live equals C
          (codes "db")
          false
          root
          (session_path sid (codes "cmd"))
          (codes "1;cat /a")
        ≡ some (false, root', notes))
    × Replies T all_live equals C root sid
        (codes "1")
        (object_body T all_live equals C found)
        (codes "/a")
        root'
        notes
    × (info_on_updated T all_live equals C
          (codes "db")
          false
          root'
          (session_path sid (codes "rsp"))
          (codes "y")
        ≡ some (false, root', []))
info_on_updated-cat_example =
    info_on_updated-cat T all_live equals C (codes "db") false root sid (codes "1")
      (codes "1;cat /a") (codes "/a") (codes "/a") (codes "1;cat /a") (codes "y") sid-IsText
      rsp-valid comparable refl cat_a a-valid a-valid (λ e. cc)

info_on_updated-ls_example :
    (names : List Bytes) × (root' : Rose (Option (MetaNode Bytes))) × (notes : List
      (Notification Bytes))
    × In (escaped (codes "a")) names
    × (info_on_updated T all_live equals C
          (codes "db")
          false
          root
          (session_path sid (codes "cmd"))
          (codes "1;ls /")
        ≡ some (false, root', notes))
    × Replies T all_live equals C root sid
        (codes "1")
        (reply_entries names)
        (codes "/a")
        root'
        notes
info_on_updated-ls_example =
    info_on_updated-ls T all_live equals C (codes "db") false root sid (codes "1") (codes "1;ls /")
      (codes "/") (codes "a") (codes "/a") (codes "1;ls /") (codes "x") sid-IsText rsp-valid
      comparable refl ls_root root-valid a-IsText (unfold bytes_eq in a-valid)
      (unfold bytes_eq in a-holds) a-valid (λ e. cc)

encodes : encode (codes "100%\n") ≡ codes "100%25%0A"
unfolding encode
encodes = refl

-- Options are skipped, and what follows "--" is taken as it is.
operands :
    (first_operand (codes "-l" ∷ codes "/a" ∷ []) ≡ some (codes "/a"))
    × (first_operand (codes "--" ∷ codes "-l" ∷ []) ≡ some (codes "-l"))
unfolding first_operand bytes_eq
operands = (refl, refl)

log_on :
    info_on_updated T all_live equals C
      (codes "db")
      false
      root
      (codes "/proc/log/transaction")
      (codes "true")
    ≡ some (true, root, [])
unfolding info_on_updated parse_y_path part_loop getlines bytes_eq contains before object_insert
    assoc_get
log_on = refl
