-- ===== src/MsgIo/Put.antt =====
-- The put message of src/MsgIo.cpp: PutObjectMsg::makeSerializedMsg and handlePutObjectMsg.
-- `none` is a std::out_of_range of substr. Positions are size_t, and npos is 2 ^ 64 - 1.
use objxp.Common.{
  ℕ, suc, ◌+◌, ◌-◌, ◌^◌, ◌%◌, Bool, false, not, ◌||◌, List, [], ◌∷◌, ◌++◌, Option, none, some,
  Bytes, length, take, drop, is_empty, ltb, leb, ◌==◌, if◌then◌else◌, ◌>>=◌,
}
use objxp.MsgIo.{Frame}
use objxp.MsgIo.Tx.{SerializedMsg, msg_flag_more_frag}

-- PutObjectMsg, with the type name and the data of its serialized object.
pub record PutObjectMsg : Type 0 where
  pub path : Bytes
  pub type_name : Bytes
  pub opt : Bytes
  pub data_text : Bytes

abbrev pub msg_type_put_object : ℕ
msg_type_put_object = b'1'

-- The text before the data.
abbrev pub info_text : PutObjectMsg → Bytes
info_text m =
    m.path
    ++ (b',' ∷ (m.type_name ++ ((if is_empty m.opt then [] else b',' ∷ m.opt) ++ (b'=' ∷ []))))

unfoldable pub make_serialized_msg : PutObjectMsg → SerializedMsg
make_serialized_msg m = record {
  msg_type = msg_type_put_object;
  dont_frag = false;
  s_data = info_text m ++ m.data_text;
}

abbrev pub npos : ℕ
npos = 2 ^ 64 - 1

-- Addition and subtraction of size_t.
abbrev pub add_size : ℕ → ℕ → ℕ
add_size a b = (a + b) % 2 ^ 64

abbrev pub sub_size : ℕ → ℕ → ℕ
sub_size a b = (a + 2 ^ 64 - b) % 2 ^ 64

-- The first place of a byte.
unfoldable pub index_of : ℕ → Bytes → Option ℕ
index_of b [] = none
index_of b (c ∷ s) =
    let rest = index_of b s in
    if c == b then some 0 else elim rest [ none ↦ none | some i ↦ some (suc i) ]

-- s.find(b, from)
unfoldable pub find_byte : ℕ → Bytes → ℕ → ℕ
find_byte b s from = elim (index_of b (drop from s)) [ none ↦ npos | some i ↦ from + i ]

-- s.substr(at, n)
unfoldable pub substr : Bytes → ℕ → ℕ → Option Bytes
substr s at n = if ltb (length s) at then none else some (take n (drop at s))

-- The path, type name and option in the text before the data.
unfoldable pub parse_info : Bytes → Option (Bytes × Bytes × Bytes)
parse_info info = do
  let pos = find_byte b',' info 0
  path ← substr info 0 pos
  let next_pos = find_byte b',' info (add_size pos 1)
  if next_pos == npos
      then (do
        type_name ← substr info (add_size pos 1) (sub_size (sub_size (length info) pos) 2)
        some (path, type_name, []))
      else do
        type_name ← substr info (add_size pos 1) (sub_size (sub_size next_pos pos) 1)
        opt ← substr info (add_size next_pos 1) (sub_size (sub_size (length info) next_pos) 2)
        some (path, type_name, opt)

-- objInfo_ and ss_.
pub record PutRx : Type 0 where
  pub obj_info : Bytes
  pub ss : Bytes

abbrev pub init_put : PutRx
init_put = record { obj_info = []; ss = [] }

unfoldable pub ends_with_eq : Bytes → Bool
ends_with_eq [] = false
ends_with_eq (c ∷ []) = c == b'='
ends_with_eq (c ∷ d ∷ s) = ends_with_eq (d ∷ s)

-- The loop to the first '=': the bytes up to it and those after it.
unfoldable pub split_eq : Bytes → Bytes × Bytes
split_eq [] = ([], [])
split_eq (c ∷ s) = let r = split_eq s in if c == b'=' then (c ∷ [], s) else (c ∷ r.0, r.1)

-- The end of a message: the object is passed on and the texts are reset.
unfoldable pub finish_put : Bytes → Bytes → Option (PutRx × List PutObjectMsg)
finish_put info data_text = do
  r ← parse_info info
  some (init_put, record { path = r.0; type_name = r.1; opt = r.2; data_text = data_text } ∷ [])

-- What follows the text before the data. `more` is the flag of a fragment that is not the last.
abbrev pub put_data : Bytes → Bytes → Bool → Bytes → Option (PutRx × List PutObjectMsg)
put_data info ss more rest =
    let end = finish_put info (ss ++ rest) in
    if more then some (record { obj_info = info; ss = ss ++ rest }, []) else end

-- handlePutObjectMsg, with the calls of handlePutObject: path, type name, option and data of each.
unfoldable pub handle_put_object_msg : PutRx → Bool → Bytes → Option (PutRx × List PutObjectMsg)
handle_put_object_msg rx more msg =
    if is_empty rx.obj_info || not (ends_with_eq rx.obj_info)
    then (let (head, rest) = split_eq msg in
        let go_on = put_data (rx.obj_info ++ head) rx.ss more rest in
        if is_empty rest then some (record rx { obj_info = rx.obj_info ++ head }, []) else go_on)
    else put_data rx.obj_info rx.ss more msg

-- flags & MSG_FLAG_MORE_FRAG, of a byte.
abbrev pub more_frag : ℕ → Bool
more_frag flags = leb msg_flag_more_frag flags

-- handlePutObjectMsg on the frames of put messages, one after the other.
unfoldable pub put_run : PutRx → List Frame → Option (PutRx × List PutObjectMsg)
put_run rx [] = some (rx, [])
put_run rx (f ∷ fs) = do
  r ← handle_put_object_msg rx (more_frag f.flags) f.data_bytes
  s ← put_run r.0 fs
  some (s.0, r.1 ++ s.1)
