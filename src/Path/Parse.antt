-- ===== src/Path/Parse.antt =====
-- ObexTree::parsePath of src/ObexTree.cpp succeeds on every valid callback path.
use objxp.Common.{◌-◌, ◌≡◌, inl, inr, true, [], some, arith, Bytes, codes, length, ◌==◌, Bool-cases}
use objxp.Path.{
  CallbackType, current_node_only, immediate_children, all_descendants, valid_cb_path,
  convert_to_dot_path, parse_path, ends_with, drop_last,
}
use objxp.Path.Convert.{convert_to_slash_path-convert_to_dot_path}

-- Every valid callback path can be parsed.
pub parse_path_total :
    (p : Bytes)
    → valid_cb_path p ≡ some true
    → (ty : CallbackType) × (dot : Bytes) × (parse_path p ≡ some (ty, dot))
parse_path_total p h = elim (Bool-cases (ends_with p (codes "/*"))) [
  | inl e ↦ elim (Bool-cases (length p == 2)) [
    | inl two ↦ (
      all_descendants,
      [],
      let z : length p - 2 ≡ 0 = ground arith in unfold parse_path convert_to_dot_path in rw (e, z),
    )
    | inr more ↦
        let (d, e', _) =
          convert_to_slash_path-convert_to_dot_path (drop_last 2 p)
            (unfold valid_cb_path in ground arith) in
        (all_descendants, d, unfold parse_path in rw (e, e'))
  ]
  | inr e ↦ elim (Bool-cases (ends_with p (codes "/"))) [
    | inl f ↦ elim (Bool-cases (length p == 1)) [
      | inl one ↦ (
        immediate_children,
        [],
        let z : length p - 1 ≡ 0 = ground arith in
            unfold parse_path convert_to_dot_path in rw (e, f, z),
      )
      | inr more ↦
          let (d, e', _) =
            convert_to_slash_path-convert_to_dot_path (drop_last 1 p)
              (unfold valid_cb_path in ground arith) in
          (immediate_children, d, unfold parse_path in rw (e, f, e'))
    ]
    | inr f ↦
        let (d, e', _) =
          convert_to_slash_path-convert_to_dot_path p (unfold valid_cb_path in ground arith) in
        (current_node_only, d, unfold parse_path in rw (e, f, e'))
  ]
]
