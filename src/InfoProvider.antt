-- ===== src/InfoProvider.antt =====
-- ObexInfoProvider of src/ObexInfoProvider.cpp: the commands that a session puts at its cmd path,
-- and the replies that are put at its rsp path. The JSON texts are rapidjson's: the fields of a
-- command and the members of a reply stand for them. `none` is an exception or a failed assertion.
pub mod Encoding
pub mod Argv
pub mod Session
pub mod Answer
pub mod Cat
pub mod Children
pub mod Ls
mod Tests
use objxp.Common.{
  ℕ, ◌+◌, ◌-◌, ◌/◌, ◌%◌, Bool, true, false, not, ◌&&◌, ◌||◌, List, [], ◌∷◌, ◌++◌, map, Option, none,
  some, Bytes, codes, bytes_eq, is_empty, starts_with, take, ltb, leb, ◌==◌, if◌then◌else◌, ◌>>=◌,
}
use objxp.Path.{valid_obj_path, convert_to_dot_path}
use objxp.Path.Convert.{tokens}
use objxp.Tree.{MetaTree, Notification, obj_of, get_meta_node, put_object}
use objxp.Tree.Callbacks.{register_callback}
use objxp.YPath.{before, mk_y_path, parse_y_path, get_y_path_arg}

-- strtok's delimiters.
abbrev pub is_delim : ℕ → Bool
is_delim c = (c == b' ') || (c == b'\r') || (c == b'\n') || (c == b'\t')

abbrev pub add_byte : ℕ → List Bytes → List Bytes
add_byte c [] = (c ∷ []) ∷ []
add_byte c (w ∷ ws) = (c ∷ w) ∷ ws

-- All the tokens of a C string.
unfoldable pub str_tokens : Bytes → List Bytes
str_tokens [] = []
str_tokens (c ∷ []) = if is_delim c then [] else (c ∷ []) ∷ []
str_tokens (c ∷ d ∷ s) =
    let rest = str_tokens (d ∷ s) in
    if is_delim c then rest else if is_delim d then (c ∷ []) ∷ rest else add_byte c rest

-- c_str() ends at the first byte 0.
unfoldable pub build_argv : Bytes → List Bytes
build_argv cmd = take 100 (str_tokens (before 0 cmd))

abbrev pub first_arg : List Bytes → Option Bytes
first_arg [] = none
first_arg (a ∷ rest) = some a

abbrev pub is_option : Bytes → Bool
is_option [] = false
is_option (c ∷ s) = (c == b'-') && not (is_empty s)

-- argv[optind] after the loop of getopt on "l"; no option takes an argument.
unfoldable pub first_operand : List Bytes → Option Bytes
first_operand [] = none
first_operand (a ∷ rest) =
    if bytes_eq a (codes "--")
    then first_arg rest
    else if is_option a
    then first_operand rest
    else some a

-- isprint in the C locale.
abbrev pub is_print : ℕ → Bool
is_print c = leb b' ' c && leb c b'~'

unfoldable pub is_all_printable : Bytes → Bool
is_all_printable [] = true
is_all_printable (c ∷ s) = if is_print c || (c == b'\n') then is_all_printable s else false

abbrev pub hex_digit : ℕ → ℕ
hex_digit n = if ltb n 10 then b'0' + n else (b'A' + n) - 10

unfoldable pub encode : Bytes → Bytes
encode [] = []
encode (c ∷ s) =
    let rest = encode s in
    if (c == b'%') || not (is_print c)
    then b'%' ∷ hex_digit (c / 16) ∷ hex_digit (c % 16) ∷ rest
    else c ∷ rest

-- The members of a reply beside its id: "err", or "rsp" with names, a text, or an encoded text.
pub data ReplyBody : Type 0 where
  reply_err reply_text reply_encoded : Bytes → ReplyBody
  reply_entries : List Bytes → ReplyBody

abbrev pub no_entry : ReplyBody
no_entry = reply_err (codes "2 - No such file or directory")

-- What the provider does with objects: getBool and getString behind their casts, the fields id and
-- cmd of a JSON text, a JSON object for a reply, and the type name and the data of
-- getSerializedObject.
pub record ObjectClasses (Obj : Type 0) : Type 0 where
  pub get_bool : Obj → Option Bool
  pub get_string : Obj → Option Bytes
  pub parse_command : Bytes → Option (Bytes × Bytes)
  pub json_object : Bytes → ReplyBody → Obj
  pub serialized : Obj → Bytes × Bytes

abbrev pub cmd_path : Bytes
cmd_path = codes "/proc/session/${SID}/cmd"

abbrev pub rsp_path : Bytes
rsp_path = codes "/proc/session/${SID}/rsp"

abbrev pub log_path : Bytes
log_path = codes "/proc/log/transaction"

abbrev pub sid_var : Bytes
sid_var = codes "SID"

module _ {Obj : Type 0} (T : MetaTree Obj) (live : ℕ → Bool) (equals : Obj → Obj → Option Bool)
    (C : ObjectClasses Obj) where
  open T use {Node, children, get_path}
  open C use {get_bool, get_string, parse_command, json_object, serialized}

  -- init of the callback `me`.
  unfoldable pub info_init : (ℕ → ℕ) → Node → ℕ → Option Node
  info_init address root me = do
    r ← register_callback T address root (codes "/proc/session/*") me
    register_callback T address r log_path me

  -- The end of both handlers; `name` is the tree's name.
  abbrev pub send_reply :
      Bytes → Node → Bytes → Bytes → ReplyBody → Option (Node × List (Notification Obj))
  send_reply name root sid id body = do
    path ← mk_y_path rsp_path ((sid_var ++ (b'=' ∷ sid)) ∷ [])
    put_object T live equals name root path (json_object id body)

  abbrev pub entries_of : Option Node → ReplyBody
  entries_of none = no_entry
  entries_of (some n) = reply_entries (map (λ e. e.0) (children n))

  unfoldable pub ls_body : Node → Bytes → ReplyBody
  ls_body root dot = entries_of (if is_empty dot then some root else get_path root (tokens dot))

  abbrev pub text_body : Bytes → ReplyBody
  text_body s = if is_all_printable s then reply_text s else reply_encoded (encode s)

  abbrev pub object_body : Option Obj → ReplyBody
  object_body none = no_entry
  object_body (some o) = text_body ((serialized o).0 ++ (codes ", " ++ (serialized o).1))

  unfoldable pub cat_body : Node → Bytes → ReplyBody
  cat_body root dot = object_body (obj_of T (get_meta_node T root dot))

  -- Both handlers from the test of the path on.
  abbrev pub answer_at :
      (Node → Bytes → ReplyBody)
      → Bytes
      → Node
      → Bytes
      → Bytes
      → Option Bytes
      → Option (Node × List (Notification Obj))
  answer_at body name root sid id none = some (root, [])
  answer_at body name root sid id (some path) = do
    valid ← valid_obj_path path
    if not valid
        then some (root, [])
        else do dot ← convert_to_dot_path path; send_reply name root sid id (body root dot)

  -- `args` is argv without argv[0].
  unfoldable pub handle_ls_command :
      Bytes → Node → Bytes → Bytes → List Bytes → Option (Node × List (Notification Obj))
  handle_ls_command name root sid id args = answer_at ls_body name root sid id (first_operand args)

  unfoldable pub handle_cat_command :
      Bytes → Node → Bytes → Bytes → List Bytes → Option (Node × List (Notification Obj))
  handle_cat_command name root sid id args = answer_at cat_body name root sid id (first_arg args)

  -- strncmp(argv[0], name, strlen(argv[0])) == 0. rm and unknown commands do nothing.
  unfoldable pub run_command :
      Bytes → Node → Bytes → Bytes → List Bytes → Option (Node × List (Notification Obj))
  run_command name root sid id [] = some (root, [])
  run_command name root sid id (c ∷ args) =
      if starts_with c (codes "ls")
      then handle_ls_command name root sid id args
      else if starts_with c (codes "cat")
      then handle_cat_command name root sid id args
      else some (root, [])

  -- What onUpdated does, with the flag of setLogTransaction.
  abbrev pub update_log :
      Bool
      → Node
      → Obj
      → Option (List (Bytes × Bytes))
      → Option (Bool × Node × List (Notification Obj))
  update_log log root o none = some (log, root, [])
  update_log log root o (some m) = do on ← get_bool o; some (on, root, [])

  abbrev pub update_at :
      Bytes
      → Bool
      → Node
      → Bytes
      → Obj
      → Option (List (Bytes × Bytes))
      → Option (Bool × Node × List (Notification Obj))
  update_at name log root path o none = update_log log root o (parse_y_path [] log_path path)
  update_at name log root path o (some m) = do
    sid ← get_y_path_arg m sid_var
    text ← get_string o
    c ← parse_command text
    r ← run_command name root sid c.0 (build_argv c.1)
    some (log, r.0, r.1)

  -- onUpdated, for the path of a notification of the tree, which is not empty.
  unfoldable pub info_on_updated :
      Bytes → Bool → Node → Bytes → Obj → Option (Bool × Node × List (Notification Obj))
  info_on_updated name log root path o =
      update_at name log root path o (parse_y_path [] cmd_path path)
