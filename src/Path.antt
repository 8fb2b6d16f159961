-- ===== src/Path.antt =====
-- Object and callback paths: the path functions of src/ObexTree.cpp. A path is a std::string; a
-- call that throws std::out_of_range or fails an assertion returns `none`.
pub mod Convert
pub mod Match
pub mod Parse
mod Tests
use objxp.Common.{
  ℕ, ◌+◌, ◌-◌, ◌%◌, ◌^◌, Bool, true, false, not, ◌&&◌, ◌||◌, List, [], ◌∷◌, ◌++◌, Option, none,
  some, Bytes, codes, bytes_eq, contains, starts_with, replace, length, take, drop, ltb, leb, ◌==◌,
  if◌then◌else◌, ◌>>=◌, ◌>>◌, guard,
}

-- isalnum in the C locale.
abbrev pub is_alnum : ℕ → Bool
is_alnum c = (leb b'0' c && leb c b'9') || (leb b'A' c && leb c b'Z') || (leb b'a' c && leb c b'z')

abbrev pub is_path_char : ℕ → Bool
is_path_char c = is_alnum c || (c == b'/') || (c == b'_') || (c == b'-') || (c == b'.')

unfoldable pub all_path_chars : Bytes → Bool
all_path_chars [] = true
all_path_chars (c ∷ s) = is_path_char c && all_path_chars s

-- find("//") != npos
unfoldable pub has_double_slash : Bytes → Bool
has_double_slash [] = false
has_double_slash (c ∷ []) = false
has_double_slash (c ∷ d ∷ s) = ((c == b'/') && (d == b'/')) || has_double_slash (d ∷ s)

-- The last byte of `c ∷ s`.
unfoldable pub last_byte : ℕ → Bytes → ℕ
last_byte c [] = c
last_byte c (d ∷ s) = last_byte d s

-- at(0) of an empty string throws.
unfoldable pub valid_obj_path : Bytes → Option Bool
valid_obj_path [] = none
valid_obj_path (c ∷ s) =
    if bytes_eq (c ∷ s) (codes "/")
    then some true
    else if not (c == b'/')
    then some false
    else if last_byte c s == b'/'
    then some false
    else if has_double_slash (c ∷ s)
    then some false
    else some (all_path_chars (c ∷ s))

-- p.compare(p.length() - n, p.length(), suffix) == 0, behind the test p.length() >= n.
abbrev pub ends_with : Bytes → Bytes → Bool
ends_with p suffix =
    leb (length suffix) (length p) && bytes_eq (drop (length p - length suffix) p) suffix

-- p.substr(0, p.length() - n)
abbrev pub drop_last : ℕ → Bytes → Bytes
drop_last n p = take (length p - n) p

unfoldable pub valid_cb_path : Bytes → Option Bool
valid_cb_path p =
    if ends_with p (codes "/*")
    then (if length p == 2 then some true else valid_obj_path (drop_last 2 p))
    else if ends_with p (codes "/")
    then (if length p == 1 then some true else valid_obj_path (drop_last 1 p))
    else valid_obj_path p

abbrev pub esc : ℕ
esc = b'\\'

unfoldable pub convert_to_dot_path : Bytes → Option Bytes
convert_to_dot_path [] = some []
convert_to_dot_path (c ∷ s) = do
  guard (not (contains esc (c ∷ s)))
  guard (c == b'/')
  some (replace b'/' b'.' (replace b'.' esc s))

unfoldable pub convert_to_slash_path : Bytes → Option Bytes
convert_to_slash_path p = do
  guard (not (contains b'/' p))
  some (replace esc b'.' (replace b'.' b'/' (b'.' ∷ p)))

pub data CallbackType : Type 0 where
  current_node_only immediate_children all_descendants : CallbackType

abbrev with_type : CallbackType → Bytes → CallbackType × Bytes
with_type t p = (t, p)

unfoldable pub parse_path : Bytes → Option (CallbackType × Bytes)
parse_path p =
    if ends_with p (codes "/*")
    then (do d ← convert_to_dot_path (drop_last 2 p); some (with_type all_descendants d))
    else if ends_with p (codes "/")
    then (do d ← convert_to_dot_path (drop_last 1 p); some (with_type immediate_children d))
    else (do d ← convert_to_dot_path p; some (with_type current_node_only d))

-- s.compare(s.length() - n, s.length(), suffix) == 0 with no test of the length: the difference
-- is a size_t, and a position beyond the end throws.
unfoldable pub compare_tail : Bytes → ℕ → Bytes → Option Bool
compare_tail s n suffix =
    let at = (length s + 2 ^ 64 - n) % 2 ^ 64 in
    if ltb (length s) at then none else some (bytes_eq (drop at s) suffix)

unfoldable pub obj_path_matches_cb_path : Bytes → Bytes → Option Bool
obj_path_matches_cb_path obj cb = do
  valid ← valid_obj_path obj
  if not valid then some false else do
    valid_cb ← valid_cb_path cb
    if not valid_cb then some false else do
      descendants ← compare_tail cb 2 (codes "/*")
      if descendants then some (starts_with (drop_last 2 cb) obj) else do
        immediate ← compare_tail cb 1 (codes "/")
        if immediate
            then some (starts_with cb obj && not (contains b'/' (drop (length cb) obj)))
            else some (bytes_eq obj cb)
