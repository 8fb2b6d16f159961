-- ===== src/MsgIo/PutInfo.antt =====
-- The text before the data of a put message of src/MsgIo.cpp reads back.
use objxp.Common.{
  ℕ, suc, ◌+◌, ◌<◌, ◌≡◌, ◌≢◌, refl, sym, ap, ◌∙◌, false, [], ◌∷◌, ◌++◌, Option, none, some, arith,
  Bytes, Lacks, All-append, append_assoc, length, length-append, take-append, drop, drop-append,
  ltb, ◌==◌,
}
use objxp.MsgIo.Put.{
  PutObjectMsg, info_text, npos, add_size, sub_size, index_of, find_byte, substr, parse_info,
}

index_of-append : (b : ℕ) (s t : Bytes) → Lacks b s → index_of b (s ++ (b ∷ t)) ≡ some (length s)
unfolding index_of
index_of-append b [] t h = ground arith
index_of-append b (c ∷ s) t h = ground (arith, index_of-append b s t h.1)

index_of-Lacks : (b : ℕ) (s : Bytes) → Lacks b s → index_of b s ≡ none
unfolding index_of
index_of-Lacks b [] h = refl
index_of-Lacks b (c ∷ s) h = ground (arith, index_of-Lacks b s h.1)

-- The search from behind a prefix, in a text that is given with its parts.
pub find_byte-append :
    (b : ℕ) (info p s t : Bytes) (n : ℕ)
    → info ≡ p ++ (s ++ (b ∷ t))
    → n ≡ length p
    → Lacks b s
    → find_byte b info n ≡ n + length s
unfolding find_byte
find_byte-append b info p s t n e l h =
    let at : drop n info ≡ s ++ (b ∷ t) =
      ap (λ (k : ℕ). drop k info) l ∙ ap (drop (length p)) e ∙ drop-append p (s ++ (b ∷ t)) in
    ap (λ (o : Option ℕ). elim o as (λ x. ℕ) [ none ↦ npos | some i ↦ n + i ])
      (ap (index_of b) at ∙ index_of-append b s t h)

find_byte-Lacks :
    (b : ℕ) (info p s : Bytes) (n : ℕ)
    → info ≡ p ++ s
    → n ≡ length p
    → Lacks b s
    → find_byte b info n ≡ npos
unfolding find_byte
find_byte-Lacks b info p s n e l h =
    let at : drop n info ≡ s =
      ap (λ (k : ℕ). drop k info) l ∙ ap (drop (length p)) e ∙ drop-append p s in
    ap (λ (o : Option ℕ). elim o as (λ x. ℕ) [ none ↦ npos | some i ↦ n + i ])
      (ap (index_of b) at ∙ index_of-Lacks b s h)

pub substr-append :
    (info p s t : Bytes) (n k : ℕ)
    → info ≡ p ++ (s ++ t)
    → n ≡ length p
    → k ≡ length s
    → substr info n k ≡ some s
unfolding substr
substr-append info p s t n k e l m =
    let len : length info ≡ length p + length (s ++ t) = ap length e ∙ length-append p (s ++ t) in
    let in_range : ltb (length info) n ≡ false = ground arith in
    let at : drop n info ≡ s ++ t =
      ap (λ (i : ℕ). drop i info) l ∙ ap (drop (length p)) e ∙ drop-append p (s ++ t) in
    rw (in_range, at, m, take-append s t)

-- A put message whose fields have no byte that separates them, and whose texts are short enough
-- to be addressed.
pub record IsPut (m : PutObjectMsg) : Type 0 where
  pub path_comma : Lacks b',' m.path
  pub path_eq : Lacks b'=' m.path
  pub type_comma : Lacks b',' m.type_name
  pub type_eq : Lacks b'=' m.type_name
  pub opt_eq : Lacks b'=' m.opt
  pub some_data : 0 < length m.data_text
  pub short : length (info_text m) < npos

parse_with_opt :
    (path ty opt : Bytes)
    → Lacks b',' path
    → Lacks b',' ty
    → length (path ++ (b',' ∷ (ty ++ (b',' ∷ (opt ++ (b'=' ∷ [])))))) < npos
    → parse_info (path ++ (b',' ∷ (ty ++ (b',' ∷ (opt ++ (b'=' ∷ [])))))) ≡ some (path, ty, opt)
unfolding parse_info
parse_with_opt path ty opt hp ht k =
    let tail : Bytes = b',' ∷ (opt ++ (b'=' ∷ [])) in
    let info = path ++ (b',' ∷ (ty ++ tail)) in
    let q : Bytes = path ++ (b',' ∷ []) in
    let r : Bytes = q ++ (ty ++ (b',' ∷ [])) in
    let len_q : length path + 1 ≡ length q = omega (arith, length-append path (b',' ∷ [])) in
    let len_r : length path + 1 + length ty + 1 ≡ length r =
      omega (arith, len_q, length-append q (ty ++ (b',' ∷ [])), length-append ty (b',' ∷ [])) in
    let len : length info ≡ length path + suc (length ty + suc (length opt + 1)) =
      length-append path (b',' ∷ (ty ++ tail))
      ∙ omega (arith, length-append ty tail, length-append opt (b'=' ∷ [])) in
    let parts : info ≡ q ++ (ty ++ tail) = sym (append_assoc path (b',' ∷ []) (ty ++ tail)) in
    let parts' : info ≡ r ++ (opt ++ (b'=' ∷ [])) =
      parts
      ∙ ap (λ t. q ++ t) (sym (append_assoc ty (b',' ∷ []) (opt ++ (b'=' ∷ []))))
      ∙ sym (append_assoc q (ty ++ (b',' ∷ [])) (opt ++ (b'=' ∷ []))) in
    let comma : find_byte b',' info 0 ≡ length path =
      find_byte-append b',' info [] path (ty ++ tail) 0 refl (omega arith) hp ∙ omega arith in
    let next : add_size (length path) 1 ≡ length path + 1 = omega (arith, len, k) in
    let comma' : find_byte b',' info (length path + 1) ≡ length path + 1 + length ty =
      find_byte-append b',' info q ty (opt ++ (b'=' ∷ [])) (length path + 1) parts len_q ht in
    let found : (length path + 1 + length ty == npos) ≡ false = ground arith in
    let size : sub_size (sub_size (length path + 1 + length ty) (length path)) 1 ≡ length ty =
      omega (arith, len, k) in
    let after : add_size (length path + 1 + length ty) 1 ≡ length path + 1 + length ty + 1 =
      omega (arith, len, k) in
    let size' : sub_size (sub_size (length info) (length path + 1 + length ty)) 2 ≡ length opt =
      omega (arith, len, k) in
    rw (
      comma,
      next,
      comma',
      found,
      after,
      substr-append info [] path (b',' ∷ (ty ++ tail)) 0 (length path) refl (omega arith) refl,
      substr-append info q ty tail (length path + 1)
          (sub_size (sub_size (length path + 1 + length ty) (length path)) 1) parts len_q size,
      substr-append info r opt (b'=' ∷ []) (length path + 1 + length ty + 1)
          (sub_size (sub_size (length info) (length path + 1 + length ty)) 2) parts' len_r size',
    )

parse_no_opt :
    (path ty : Bytes)
    → Lacks b',' path
    → Lacks b',' ty
    → length (path ++ (b',' ∷ (ty ++ (b'=' ∷ [])))) < npos
    → parse_info (path ++ (b',' ∷ (ty ++ (b'=' ∷ [])))) ≡ some (path, ty, [])
unfolding parse_info
parse_no_opt path ty hp ht k =
    let info = path ++ (b',' ∷ (ty ++ (b'=' ∷ []))) in
    let len : length info ≡ length path + suc (length ty + 1) =
      length-append path (b',' ∷ (ty ++ (b'=' ∷ [])))
      ∙ omega (arith, length-append ty (b'=' ∷ [])) in
    let comma : find_byte b',' info 0 ≡ length path =
      find_byte-append b',' info [] path (ty ++ (b'=' ∷ [])) 0 refl (omega arith) hp
      ∙ omega arith in
    let next : add_size (length path) 1 ≡ length path + 1 = omega (arith, len, k) in
    let behind : length path + 1 ≡ length (path ++ (b',' ∷ [])) =
      omega (arith, length-append path (b',' ∷ [])) in
    let parts : info ≡ (path ++ (b',' ∷ [])) ++ (ty ++ (b'=' ∷ [])) =
      sym (append_assoc path (b',' ∷ []) (ty ++ (b'=' ∷ []))) in
    let no_more : find_byte b',' info (length path + 1) ≡ npos =
      find_byte-Lacks b',' info (path ++ (b',' ∷ [])) (ty ++ (b'=' ∷ [])) (length path + 1) parts
        behind (All-append (λ c. c ≢ b',') ty (b'=' ∷ []) ht (ground arith, tt)) in
    let size : sub_size (sub_size (length info) (length path)) 2 ≡ length ty =
      omega (arith, len, k) in
    rw (
      comma,
      next,
      no_more,
      substr-append info [] path (b',' ∷ (ty ++ (b'=' ∷ []))) 0 (length path) refl (omega arith)
          refl,
      substr-append info (path ++ (b',' ∷ [])) ty (b'=' ∷ []) (length path + 1)
          (sub_size (sub_size (length info) (length path)) 2) parts behind size,
    )

parse_parts :
    (path ty opt d : Bytes)
    → Lacks b',' path
    → Lacks b',' ty
    → (let m : PutObjectMsg = record { path = path; type_name = ty; opt = opt; data_text = d } in
        length (info_text m) < npos → parse_info (info_text m) ≡ some (path, ty, opt))
parse_parts path ty [] d hp ht k = parse_no_opt path ty hp ht k
parse_parts path ty (o ∷ opt) d hp ht k = parse_with_opt path ty (o ∷ opt) hp ht k

-- The text before the data reads back as the fields.
pub parse_info-info_text :
    (m : PutObjectMsg) → IsPut m → parse_info (info_text m) ≡ some (m.path, m.type_name, m.opt)
parse_info-info_text m h =
    parse_parts m.path m.type_name m.opt m.data_text h.path_comma h.type_comma h.short
