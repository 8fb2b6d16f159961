-- ===== src/YPath/Tests.antt =====
-- Tests of src/YUtils.cpp on the paths of include/YPathProc.h.
use objxp.Common.{
  ◌≡◌, refl, List, [], ◌∷◌, none, some, codes, bytes_eq, contains, getlines, All, arith,
}
use objxp.PropertyTree.{assoc_get}
use objxp.Tree.Callbacks.{object_insert}
use objxp.YPath.{
  before, behind, arg_map, split_open, var_value, mk_loop, mk_y_path, part_loop, parse_y_path,
}
use objxp.YPath.Print.{
  Part, fixed, bound, format_of, path_of, args_of, bindings, IsPart, FreshVars, slashed,
}
use objxp.YPath.Back.{parse_y_path-mk_y_path}

-- YpProcSession__SID__Cmd
abbrev parts : List Part
parts = fixed (codes "session") ∷ bound (codes "SID") (codes "c-1") ∷ fixed (codes "cmd") ∷ []

parts-IsPart : All IsPart (fixed (codes "proc") ∷ parts)
parts-IsPart = ground arith

parts-FreshVars : FreshVars [] (fixed (codes "proc") ∷ parts)
unfolding assoc_get
parts-FreshVars = (refl, tt)

parse_y_path-mk_y_path_example :
    (mk_y_path (format_of (fixed (codes "proc") ∷ parts)) (args_of (fixed (codes "proc") ∷ parts))
      ≡ some (path_of (fixed (codes "proc") ∷ parts)))
    × (parse_y_path []
          (format_of (fixed (codes "proc") ∷ parts))
          (path_of (fixed (codes "proc") ∷ parts))
        ≡ some (bindings (fixed (codes "proc") ∷ parts)))
parse_y_path-mk_y_path_example =
    parse_y_path-mk_y_path (fixed (codes "proc")) parts parts-IsPart parts-FreshVars

format_text : format_of (fixed (codes "proc") ∷ parts) ≡ codes "/proc/session/${SID}/cmd"
unfolding slashed
format_text = refl

default_value : mk_y_path (codes "/path/to/${THIRD=hello}") [] ≡ some (codes "/path/to/hello")
unfolding mk_y_path mk_loop arg_map split_open var_value before behind contains assoc_get
default_value = refl

-- A path that is shorter than the format is refused, and one that is longer is taken.
parse_short : parse_y_path [] (codes "/a/${B}") (codes "/a") ≡ none
unfolding parse_y_path part_loop getlines bytes_eq
parse_short = refl

parse_long : parse_y_path [] (codes "/a/${B}") (codes "/a/b/c") ≡ some ((codes "B", codes "b") ∷ [])
unfolding parse_y_path part_loop getlines bytes_eq contains before object_insert assoc_get
parse_long = refl
