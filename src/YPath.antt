-- ===== src/YPath.antt =====
-- Paths with variables: _MkYPath, ParseYPath and GetYPathArg of src/YUtils.cpp. A map is kept in
-- the order of insertion. `none` is an exception or a failed assertion.
pub mod Split
pub mod Print
pub mod Back
mod Tests
use objxp.Common.{
  ℕ, zero, suc, ◌≡◌, Bool, true, false, not, ◌&&◌, List, [], ◌∷◌, ◌++◌, Option, none, some, Bytes,
  bytes_eq, is_empty, contains, drop, length, getlines, ◌==◌, if◌then◌else◌, guard, ◌>>=◌, ◌>>◌,
}
use objxp.PropertyTree.{assoc_get}
use objxp.Tree.Callbacks.{object_insert}

-- The text before the first byte `b`, and the text behind it.
unfoldable pub before : ℕ → Bytes → Bytes
before b [] = []
before b (c ∷ s) = if c == b then [] else c ∷ before b s

unfoldable pub behind : ℕ → Bytes → Bytes
behind b [] = []
behind b (c ∷ s) = if c == b then s else behind b s

-- An argument VAR=value. The arguments end at the first empty one.
unfoldable pub arg_map : List Bytes → List (Bytes × Bytes) → Option (List (Bytes × Bytes))
arg_map [] m = some m
arg_map (s ∷ l) m = if is_empty s then some m else elim (assoc_get (before b'=' s) m) [
  | some v ↦ none
  | none ↦ arg_map l (m ++ ((before b'=' s, behind b'=' s) ∷ []))
]

abbrev pub add_first : ℕ → Option (Bytes × Bytes) → Option (Bytes × Bytes)
add_first c none = none
add_first c (some (x, y)) = some (c ∷ x, y)

-- The texts around the first "${".
unfoldable pub split_open : Bytes → Option (Bytes × Bytes)
split_open [] = none
split_open (c ∷ []) = none
split_open (c ∷ d ∷ s) =
    let rest = split_open (d ∷ s) in
    if (c == b'$') && (d == b'{') then some ([], s) else add_first c rest

-- The text for a variable, or for one with a default.
unfoldable pub var_value : List (Bytes × Bytes) → Bytes → Option Bytes
var_value m var_str =
    if contains b'=' var_str
    then (do
      guard (not (is_empty (before b'=' var_str)) && not (is_empty (behind b'=' var_str)))
      elim (assoc_get (before b'=' var_str) m) [
        | some v ↦ some v
        | none ↦ some (behind b'=' var_str)
      ])
    else (do guard (not (is_empty var_str)); assoc_get var_str m)

-- A round of the loop of _MkYPath on the text from curPos on, which `below` goes on with.
abbrev pub mk_round :
    (Bytes → Option Bytes) → List (Bytes × Bytes) → Bytes → Option (Bytes × Bytes) → Option Bytes
mk_round below m s none = some s
mk_round below m s (some (x, y)) = do
  guard (contains b'}' y)
  v ← var_value m (before b'}' y)
  t ← below (behind b'}' y)
  some (x ++ (v ++ t))

-- The loop, on fuel: a round takes at least two bytes.
unfoldable pub mk_loop : ℕ → List (Bytes × Bytes) → Bytes → Option Bytes
mk_loop zero m s = none
mk_loop (suc fuel) m s = mk_round (λ t. mk_loop fuel m t) m s (split_open s)

unfoldable pub mk_y_path : Bytes → List Bytes → Option Bytes
mk_y_path fmt args = do m ← arg_map args []; mk_loop (suc (length fmt)) m fmt

-- substr(1)
abbrev pub behind_slash : Bytes → Option Bytes
behind_slash [] = none
behind_slash (c ∷ s) = some s

-- ParseYPath into a vector.
unfoldable pub parse_parts : Bytes → Option (List Bytes)
parse_parts path = do s ← behind_slash path; some (getlines b'/' s)

abbrev pub is_var : Bytes → Bool
is_var [] = false
is_var (c ∷ []) = false
is_var (c ∷ d ∷ s) = (c == b'$') && (d == b'{')

-- substr(2, end - 2), for the first '=', or the first '}', which has to be there.
abbrev pub var_name : Bytes → Option Bytes
var_name part =
    if contains b'=' part
    then some (drop 2 (before b'=' part))
    else (do guard (contains b'}' part); some (drop 2 (before b'}' part)))

-- The loop of ParseYPath over the parts of the format and of the path.
unfoldable pub part_loop :
    List Bytes → List Bytes → List (Bytes × Bytes) → Option (List (Bytes × Bytes))
part_loop [] ps m = some m
part_loop (f ∷ fs) [] m = none
part_loop (f ∷ fs) (p ∷ ps) m =
    if is_var f
    then (do v ← var_name f; part_loop fs ps (object_insert v p m))
    else elim (bytes_eq f p) [ true ↦ part_loop fs ps m | false ↦ none ]

unfoldable pub parse_y_path : List (Bytes × Bytes) → Bytes → Bytes → Option (List (Bytes × Bytes))
parse_y_path m fmt path = do
  s ← behind_slash path
  f ← behind_slash fmt
  part_loop (getlines b'/' f) (getlines b'/' s) m

unfoldable pub get_y_path_arg : List (Bytes × Bytes) → Bytes → Option Bytes
get_y_path_arg m var = assoc_get var m
