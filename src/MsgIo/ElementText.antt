-- ===== src/MsgIo/ElementText.antt =====
-- The text of one element of a transaction of src/MsgIo.cpp, and how the parser of
-- handleTransactionMsg reads it.
use objxp.Common.{
  ℕ, ◌+◌, ◌^◌, ◌<◌, ◌≡◌, sym, ◌⊎◌, inl, inr, subst, false, List, [], ◌∷◌, ◌++◌, some, arith, Bytes,
  codes, bytes_eq, bytes_eq_refl, Lacks, append_assoc, length, length-append, leb, if◌then◌else◌,
}
use objxp.MsgIo.Put.{npos, add_size, sub_size}
use objxp.MsgIo.Cursor.{
  At, At-skip, At-length, At-substr, At-expect, Field, find_byte-Field, decimal-Lacks, atoi-decimal,
}
use objxp.MsgIo.Transaction.{
  XElement, x_put, x_del, x_path, dod_opt, has_path, decimal, element_text, expect, parse_put,
  parse_del,
}

-- An element whose fields have no byte that ends them. The option is the one for deletion on
-- disconnect or none, and an int holds the length of the data.
abbrev pub IsElement : XElement → Type 0
IsElement (x_del path) = Lacks b'}' path
IsElement (x_put path ty opt d) =
    Lacks b',' path × Lacks b',' ty × ((opt ≡ dod_opt) ⊎ (opt ≡ [])) × (length d < 2 ^ 31)

-- No path occurs twice, nor in the elements before.
abbrev pub Fresh : List XElement → List XElement → Type 0
Fresh before [] = Unit
Fresh before (x ∷ xs) = (has_path (x_path x) before ≡ false) × Fresh (before ++ (x ∷ [])) xs

pub parse_del-text :
    (s : Bytes) (xs : List XElement) (next : ℕ) (path rest : Bytes)
    → At s next (b',' ∷ (path ++ (b'}' ∷ rest)))
    → Lacks b'}' path
    → has_path path xs ≡ false
    → length s < npos
    → (n : ℕ) × (parse_del s xs next ≡ some (xs ++ (x_del path ∷ []), n)) × At s n (b'}' ∷ rest)
unfolding parse_del
parse_del-text s xs next path rest h hp new short =
    let len = At-length s next (b',' ∷ (path ++ (b'}' ∷ rest))) h in
    let p1 : add_size next 1 ≡ next + 1 = omega (arith, len) in
    let f =
      find_byte-Field b'}' s (next + 1) path rest
        (At-skip s next (b',' ∷ []) (path ++ (b'}' ∷ rest)) h) hp short in
    let close = At-expect s (next + 1 + length path) b'}' rest f.here in
    (next + 1 + length path, rw (p1, f.end, close, f.text, new), f.here)

pub parse_put-text :
    (s : Bytes) (xs : List XElement) (next : ℕ) (path ty opt d rest : Bytes)
    → At s next (
        b','
        ∷ (decimal (length d)
            ++ (b',' ∷ (path ++ (b',' ∷ (ty ++ (b',' ∷ (opt ++ (b'=' ∷ (d ++ (b'}' ∷ rest)))))))))))
    → IsElement (x_put path ty opt d)
    → has_path path xs ≡ false
    → length s < npos
    → (n : ℕ) × (parse_put s xs next ≡ some (xs ++ (x_put path ty opt d ∷ []), n))
      × At s n (b'}' ∷ rest)
unfolding parse_put
parse_put-text s xs next path ty opt d rest h (hp, ht, ho, hd) new short =
    let t4 : Bytes = d ++ (b'}' ∷ rest) in
    let t3 : Bytes = opt ++ (b'=' ∷ t4) in
    let t2 : Bytes = ty ++ (b',' ∷ t3) in
    let t1 : Bytes = path ++ (b',' ∷ t2) in
    let t0 : Bytes = decimal (length d) ++ (b',' ∷ t1) in
    let len = At-length s next (b',' ∷ t0) h in
    let p1 : add_size next 1 ≡ next + 1 = omega (arith, len) in
    let f1 =
      find_byte-Field b',' s (next + 1) (decimal (length d)) t1 (At-skip s next (b',' ∷ []) t0 h)
        (decimal-Lacks (length d)) short in
    let q1 = next + 1 + length (decimal (length d)) + 1 in
    let f2 = find_byte-Field b',' s q1 path t2 f1.next hp short in
    let q2 = q1 + length path + 1 in
    let f3 = find_byte-Field b',' s q2 ty t3 f2.next ht short in
    let q3 = q2 + length ty + 1 in
    let f4 = find_byte-Field b'=' s q3 opt t4 f3.next (opt_eq opt ho) short in
    let q4 = q3 + length opt + 1 in
    let len4 = At-length s q4 t4 f4.next in
    let len_d = length-append d (b'}' ∷ rest) in
    let p5 : add_size q4 (length d) ≡ q4 + length d = omega (arith, len4, len_d) in
    let size : sub_size (q4 + length d) q4 ≡ length d = omega (arith, len4, len_d) in
    let close = At-skip s q4 d (b'}' ∷ rest) f4.next in
    let text = At-substr s q4 d (b'}' ∷ rest) (sub_size (q4 + length d) q4) f4.next size in
    (
      q4 + length d,
      rw (
        p1,
        f1.end,
        f1.text,
        f1.behind,
        f2.end,
        f2.text,
        f2.behind,
        f3.end,
        f3.text,
        f3.behind,
        f4.end,
        f4.text,
        f4.behind,
        atoi-decimal (length d) hd,
        p5,
        At-expect s (q4 + length d) b'}' rest close,
        text,
        new,
        same_opt opt ho,
      ),
      close,
    )
  where
    opt_eq : (o : Bytes) → (o ≡ dod_opt) ⊎ (o ≡ []) → Lacks b'=' o
    opt_eq o (inl e) = subst (Lacks b'=') (sym e) (ground arith)
    opt_eq o (inr e) = subst (Lacks b'=') (sym e) tt

    same_opt :
        (o : Bytes) → (o ≡ dod_opt) ⊎ (o ≡ []) → (if bytes_eq o dod_opt then dod_opt else []) ≡ o
    same_opt o (inl e) = rw (e, bytes_eq_refl dod_opt)
    same_opt o (inr e) = unfold bytes_eq in rw e

-- The text of an element in front of another text.
unfoldable pub put_text : Bytes → Bytes → Bytes → Bytes → Bytes → Bytes
put_text path ty opt d rest =
    decimal (length d)
    ++ (b',' ∷ (path ++ (b',' ∷ (ty ++ (b',' ∷ (opt ++ (b'=' ∷ (d ++ (b'}' ∷ rest)))))))))

pub put_text-append :
    (path ty opt d rest : Bytes)
    → element_text (x_put path ty opt d) ++ rest
      ≡ codes "{put" ++ (b',' ∷ put_text path ty opt d rest)
unfolding element_text put_text
put_text-append path ty opt d rest = simp append_assoc

-- The word that begins an element.
pub record Opens (s : Bytes) (pos : ℕ) (op t : Bytes) : Type 0 where
  pub inside : leb (length s) pos ≡ false
  pub brace : expect s pos b'{' ≡ some tt
  pub after : add_size pos 1 ≡ pos + 1
  pub word : Field b',' s (pos + 1) op t

pub opens :
    (s : Bytes) (pos : ℕ) (op t : Bytes)
    → At s pos (b'{' ∷ (op ++ (b',' ∷ t)))
    → Lacks b',' op
    → length s < npos
    → Opens s pos op t
opens s pos op t h k short =
    let len = At-length s pos (b'{' ∷ (op ++ (b',' ∷ t))) h in
    record {
      inside = ground arith;
      brace = At-expect s pos b'{' (op ++ (b',' ∷ t)) h;
      after = omega (arith, len);
      word =
          find_byte-Field b',' s (pos + 1) op t (At-skip s pos (b'{' ∷ []) (op ++ (b',' ∷ t)) h) k
            short;
    }

-- What follows the end of an element.
pub closes :
    (s : Bytes) (n : ℕ) (rest : Bytes)
    → At s n (b'}' ∷ rest)
    → length s < npos
    → (add_size n 1 ≡ n + 1) × At s (n + 1) rest
closes s n rest h short =
    let len = At-length s n (b'}' ∷ rest) h in (omega (arith, len), At-skip s n (b'}' ∷ []) rest h)
