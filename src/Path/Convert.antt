-- ===== src/Path/Convert.antt =====
-- The two path conversions of src/ObexTree.cpp are inverse on valid paths, and the tokens of a
-- converted path tell valid paths apart.
use objxp.Common.{
  ℕ, ◌≡◌, refl, sym, ap, ◌∙◌, true, List, [], ◌∷◌, some, arith, Bytes, Lacks, EndsWith, bytes_eq,
  contains, Lacks-contains, replace, getlines, join, join-getlines,
}
use objxp.Path.{
  esc, all_path_chars, last_byte, valid_obj_path, convert_to_dot_path, convert_to_slash_path,
}

abbrev pub to_dot : Bytes → Bytes
to_dot s = replace b'/' b'.' (replace b'.' esc s)

slash-dot : (s : Bytes) → Lacks esc s → replace esc b'.' (replace b'.' b'/' (to_dot s)) ≡ s
unfolding replace
slash-dot [] h = refl
slash-dot (c ∷ s) h = ground (arith, slash-dot s h.1)

path_chars-Lacks : (s : Bytes) → all_path_chars s ≡ true → Lacks esc s
unfolding all_path_chars
path_chars-Lacks [] h = tt
path_chars-Lacks (c ∷ s) h = ground (arith, path_chars-Lacks s)

to_dot-Lacks : (s : Bytes) → Lacks b'/' (to_dot s)
unfolding replace
to_dot-Lacks [] = tt
to_dot-Lacks (c ∷ s) = ground (arith, to_dot-Lacks s)

-- What a valid path looks like: a slash, then path characters that do not end in a slash.
pub record IsValid (p : Bytes) : Type 0 where
  pub rest : Bytes
  pub shape : p ≡ b'/' ∷ rest
  pub chars : Lacks esc rest
  pub end : ¬ EndsWith b'/' rest

last_byte-EndsWith : (c : ℕ) (s : Bytes) → EndsWith b'/' s → last_byte c s ≡ b'/'
unfolding last_byte
last_byte-EndsWith c [] h = absurd h
last_byte-EndsWith c (d ∷ []) h = h
last_byte-EndsWith c (d ∷ e ∷ s) h = last_byte-EndsWith d (e ∷ s) h

pub to_dot-EndsWith : (s : Bytes) → EndsWith b'.' (to_dot s) → EndsWith b'/' s
unfolding replace
to_dot-EndsWith [] h = h
to_dot-EndsWith (c ∷ []) h = ground arith
to_dot-EndsWith (c ∷ d ∷ s) h = to_dot-EndsWith (d ∷ s) h

pub valid_obj_path-IsValid : (p : Bytes) → valid_obj_path p ≡ some true → IsValid p
unfolding valid_obj_path bytes_eq all_path_chars
valid_obj_path-IsValid [] h = cc
valid_obj_path-IsValid (c ∷ []) h = record {
  rest = [];
  shape = ground arith;
  chars = tt;
  end = λ e. e;
}
valid_obj_path-IsValid (c ∷ d ∷ s) h = record {
  rest = d ∷ s;
  shape = ground arith;
  chars = path_chars-Lacks (d ∷ s) (ground arith);
  end = λ e. ground (arith, last_byte-EndsWith c (d ∷ s) e);
}

pub valid_obj_path-path_chars : (p : Bytes) → valid_obj_path p ≡ some true → all_path_chars p ≡ true
unfolding valid_obj_path bytes_eq all_path_chars
valid_obj_path-path_chars [] h = cc
valid_obj_path-path_chars (c ∷ []) h = ground arith
valid_obj_path-path_chars (c ∷ d ∷ s) h = ground arith

-- The dotted form of a valid path.
pub convert_to_dot_path-IsValid :
    (p : Bytes) (v : IsValid p) → convert_to_dot_path p ≡ some (to_dot v.rest)
unfolding convert_to_dot_path contains
convert_to_dot_path-IsValid p v = rw v.shape (ground (arith, Lacks-contains esc v.rest v.chars))

slash-cons :
    (s : Bytes)
    → replace esc b'.' (replace b'.' b'/' (b'.' ∷ s))
      ≡ b'/' ∷ replace esc b'.' (replace b'.' b'/' s)
unfolding replace
slash-cons s = refl

convert_to_slash_path-to_dot :
    (s : Bytes) → Lacks esc s → convert_to_slash_path (to_dot s) ≡ some (b'/' ∷ s)
unfolding convert_to_slash_path
convert_to_slash_path-to_dot s h =
    rw (Lacks-contains b'/' (to_dot s) (to_dot-Lacks s), slash-cons (to_dot s), slash-dot s h)

-- On every valid object path the conversion to a dotted path succeeds, and converting the result
-- back gives the path again.
pub convert_to_slash_path-convert_to_dot_path :
    (p : Bytes)
    → valid_obj_path p ≡ some true
    → (d : Bytes) × (convert_to_dot_path p ≡ some d) × (convert_to_slash_path d ≡ some p)
convert_to_slash_path-convert_to_dot_path p h =
    let v = valid_obj_path-IsValid p h in
    (
      to_dot v.rest,
      convert_to_dot_path-IsValid p v,
      convert_to_slash_path-to_dot v.rest v.chars ∙ ap some (sym v.shape),
    )

-- The tokens that putObject, delObject and the property tree walk.
abbrev pub tokens : Bytes → List Bytes
tokens d = getlines b'.' d

join-tokens : (p : Bytes) (v : IsValid p) → join b'.' (tokens (to_dot v.rest)) ≡ to_dot v.rest
join-tokens p v = join-getlines b'.' (to_dot v.rest) (λ e. v.end (to_dot-EndsWith v.rest e))

-- Valid paths with the same tokens are the same path.
pub tokens_injective :
    (p q d e : Bytes)
    → valid_obj_path p ≡ some true
    → valid_obj_path q ≡ some true
    → convert_to_dot_path p ≡ some d
    → convert_to_dot_path q ≡ some e
    → tokens d ≡ tokens e
    → p ≡ q
tokens_injective p q d e hp hq hd he t =
    let vp = valid_obj_path-IsValid p hp in
    let vq = valid_obj_path-IsValid q hq in
    let ed : d ≡ to_dot vp.rest = cc (convert_to_dot_path-IsValid p vp) in
    let ee : e ≡ to_dot vq.rest = cc (convert_to_dot_path-IsValid q vq) in
    let same : to_dot vp.rest ≡ to_dot vq.rest =
      cc (join-tokens p vp, join-tokens q vq, ap (join b'.') t, ap tokens ed, ap tokens ee) in
    cc (
      convert_to_slash_path-to_dot vp.rest vp.chars,
      convert_to_slash_path-to_dot vq.rest vq.chars,
      ap convert_to_slash_path same,
      vp.shape,
      vq.shape,
    )
