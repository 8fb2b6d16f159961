-- ===== src/MsgIo/Elements.antt =====
-- The text of a transaction of src/MsgIo.cpp reads back as its elements.
use objxp.Common.{
  ℕ, zero, suc, ◌+◌, ◌≤◌, ◌<◌, ◌≡◌, refl, sym, ap, ◌∙◌, subst, true, false, List, [], ◌∷◌, ◌++◌,
  some, arith, Bytes, codes, bytes_eq, bytes_eq_refl, All, append_assoc, append-nil, length,
  length-append, leb,
}
use objxp.MsgIo.Put.{npos}
use objxp.MsgIo.Cursor.{At, At-start, At-length}
use objxp.MsgIo.Transaction.{
  XElement, x_put, x_del, x_path, has_path, element_text, transaction_text, parse_loop,
  parse_transaction,
}
use objxp.MsgIo.ElementText.{
  IsElement, Fresh, parse_del-text, parse_put-text, put_text, put_text-append, opens, closes,
}

-- One element is read, and the rest of the text is left.
parse_element :
    (fuel : ℕ) (s : Bytes) (xs : List XElement) (pos : ℕ) (x : XElement) (rest : Bytes)
    → At s pos (element_text x ++ rest)
    → IsElement x
    → has_path (x_path x) xs ≡ false
    → length s < npos
    → (n : ℕ) × (parse_loop (suc fuel) s xs pos ≡ parse_loop fuel s (xs ++ (x ∷ [])) n)
      × At s n rest
unfolding parse_loop element_text
parse_element fuel s xs pos (x_del path) rest h hx new short =
    let h' : At s pos (codes "{del" ++ (b',' ∷ (path ++ (b'}' ∷ rest)))) =
      subst (λ t. At s pos (codes "{del," ++ t)) (append_assoc path (b'}' ∷ []) rest) h in
    let o = opens s pos (codes "del") (path ++ (b'}' ∷ rest)) h' (ground arith) short in
    let (n, e, more) = parse_del-text s xs (pos + 1 + 3) path rest o.word.here hx new short in
    let (after, next) = closes s n rest more short in
    let not_put : bytes_eq (codes "del") (codes "put") ≡ false = unfold bytes_eq in refl in
    (
      n + 1,
      rw (
        o.inside,
        o.brace,
        o.after,
        o.word.end,
        o.word.text,
        not_put,
        bytes_eq_refl (codes "del"),
        e,
        after,
      ),
      next,
    )
parse_element fuel s xs pos (x_put path ty opt d) rest h hx new short =
    let h' : At s pos (codes "{put" ++ (b',' ∷ put_text path ty opt d rest)) =
      subst (At s pos) (put_text-append path ty opt d rest) h in
    let o = opens s pos (codes "put") (put_text path ty opt d rest) h' (ground arith) short in
    let (n, e, more) =
      parse_put-text s xs (pos + 1 + 3) path ty opt d rest (unfold put_text in o.word.here) hx new
        short in
    let (after, next) = closes s n rest more short in
    (
      n + 1,
      rw (
        o.inside,
        o.brace,
        o.after,
        o.word.end,
        o.word.text,
        bytes_eq_refl (codes "put"),
        e,
        after,
      ),
      next,
    )

parse_end :
    (fuel : ℕ) (s : Bytes) (before : List XElement) (pos : ℕ)
    → At s pos []
    → parse_loop (suc fuel) s before pos ≡ some (before ++ [])
unfolding parse_loop
parse_end fuel s before pos h =
    let len = At-length s pos [] h in
    let end : leb (length s) pos ≡ true = ground arith in rw end (ap some (sym (append-nil before)))

parse_elements :
    (fuel : ℕ) (s : Bytes) (before xs : List XElement) (pos : ℕ)
    → At s pos (transaction_text xs)
    → All IsElement xs
    → Fresh before xs
    → length s < npos
    → length xs < fuel
    → parse_loop fuel s before pos ≡ some (before ++ xs)
unfolding transaction_text
parse_elements zero s before xs pos h hx new short k = absurd (omega arith)
parse_elements (suc fuel) s before [] pos h hx new short k = parse_end fuel s before pos h
parse_elements (suc fuel) s before (x ∷ xs) pos h (hx, hxs) (new, news) short k =
    let h' : At s pos (element_text x ++ transaction_text xs) = h in
    let (n, e, next) = parse_element fuel s before pos x (transaction_text xs) h' hx new short in
    e
    ∙ parse_elements fuel s (before ++ (x ∷ [])) xs n next hxs news short (omega arith)
    ∙ ap some (append_assoc before (x ∷ []) xs)

length-transaction_text : (xs : List XElement) → length xs ≤ length (transaction_text xs)
unfolding transaction_text element_text
length-transaction_text [] = omega arith
length-transaction_text (x_del path ∷ xs) = omega (
  arith,
  length-transaction_text xs,
  length-append (codes "{del," ++ (path ++ (b'}' ∷ []))) (transaction_text xs),
)
length-transaction_text (x_put path ty opt d ∷ xs) = omega (
  arith,
  length-transaction_text xs,
  length-append (element_text (x_put path ty opt d)) (transaction_text xs),
)

-- The text that TransactionMsg makes of elements is read by handleTransactionMsg as the same
-- elements in order. No path occurs twice, no path or type name of a put has a comma, no path of a
-- delete has '}', an option is the one for deletion on disconnect or none, the data of each put are
-- shorter than 2^31 bytes, and the text is shorter than npos.
pub parse_transaction-transaction_text :
    (xs : List XElement)
    → All IsElement xs
    → Fresh [] xs
    → length (transaction_text xs) < npos
    → parse_transaction (transaction_text xs) ≡ some xs
unfolding parse_transaction
parse_transaction-transaction_text xs h new short =
    parse_elements (suc (length (transaction_text xs))) (transaction_text xs) [] xs 0
      (At-start (transaction_text xs)) h new short (omega (arith, length-transaction_text xs))
