-- ===== src/Path/Tests.antt =====
-- Tests of the path functions of src/ObexTree.cpp on concrete paths.
use objxp.Common.{◌≡◌, ◌↔◌, refl, true, [], ◌++◌, none, some, arith, Bytes, codes, bytes_eq}
use objxp.Path.{
  CallbackType, valid_obj_path, valid_cb_path, convert_to_dot_path, convert_to_slash_path,
  parse_path, obj_path_matches_cb_path, last_byte, has_double_slash, all_path_chars,
}
use objxp.Path.Convert.{convert_to_slash_path-convert_to_dot_path}
use objxp.Path.Parse.{parse_path_total}
use objxp.Path.Match.{
  matches-all_descendants, matches-one_level, matches_root_children_throws, IsChildOf,
}

abbrev tv : Bytes
tv = codes "/home/tv"

abbrev home : Bytes
home = codes "/home"

tv-valid : valid_obj_path tv ≡ some true
unfolding valid_obj_path bytes_eq last_byte has_double_slash all_path_chars
tv-valid = refl

home-valid : valid_obj_path home ≡ some true
unfolding valid_obj_path bytes_eq last_byte has_double_slash all_path_chars
home-valid = refl

home-valid_cb : valid_cb_path home ≡ some true
unfolding valid_cb_path valid_obj_path bytes_eq last_byte has_double_slash all_path_chars
home-valid_cb = refl

all-valid : valid_cb_path (home ++ codes "/*") ≡ some true
unfolding valid_cb_path valid_obj_path bytes_eq last_byte has_double_slash all_path_chars
all-valid = refl

children-valid : valid_cb_path (home ++ codes "/") ≡ some true
unfolding valid_cb_path valid_obj_path bytes_eq last_byte has_double_slash all_path_chars
children-valid = refl

empty_path_throws : valid_obj_path [] ≡ none
unfolding valid_obj_path
empty_path_throws = refl

convert_to_slash_path-convert_to_dot_path_example :
    (d : Bytes) × (convert_to_dot_path tv ≡ some d) × (convert_to_slash_path d ≡ some tv)
convert_to_slash_path-convert_to_dot_path_example =
    convert_to_slash_path-convert_to_dot_path tv tv-valid

parses : (ty : CallbackType) × (dot : Bytes) × (parse_path (home ++ codes "/*") ≡ some (ty, dot))
parses = parse_path_total (home ++ codes "/*") all-valid

matches-all_descendants_example :
    (obj_path_matches_cb_path tv (home ++ codes "/*") ≡ some true)
    ↔ ((r : Bytes) × (tv ≡ home ++ r))
matches-all_descendants_example = matches-all_descendants tv home tv-valid all-valid (omega arith)

matches-one_level_example :
    ((obj_path_matches_cb_path tv home ≡ some true) ↔ (tv ≡ home))
    × ((obj_path_matches_cb_path tv (home ++ codes "/") ≡ some true) ↔ IsChildOf tv home)
matches-one_level_example =
    matches-one_level tv home tv-valid home-valid home-valid_cb children-valid (omega arith)
      (omega arith)

matches_root_children_throws_example :
    (valid_cb_path (codes "/") ≡ some true) × (obj_path_matches_cb_path tv (codes "/") ≡ none)
matches_root_children_throws_example = matches_root_children_throws tv tv-valid
