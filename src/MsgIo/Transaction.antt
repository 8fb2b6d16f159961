-- ===== src/MsgIo/Transaction.antt =====
-- The text of a transaction of src/MsgIo.cpp: ObexTransaction, TransactionMsg::makeSerializedMsg and
-- the loop of handleTransactionMsg. `none` is a failed assertion or a std::out_of_range.
use objxp.Common.{
  ℕ, zero, suc, ◌+◌, ◌-◌, ◌*◌, ◌/◌, ◌%◌, ◌^◌, Bool, false, not, ◌&&◌, ◌||◌, List, [], ◌∷◌, ◌++◌,
  Option, none, some, Bytes, codes, bytes_eq, length, get_elem?, ltb, leb, ◌==◌, min, if◌then◌else◌,
  guard, ◌>>=◌, ◌>>◌,
}
use objxp.MsgIo.Put.{add_size, sub_size, find_byte, substr}

-- ObexTransactionElement, with the type name and data of the serialized object of a put.
pub data XElement : Type 0 where
  x_put : Bytes → Bytes → Bytes → Bytes → XElement
  x_del : Bytes → XElement

abbrev pub x_path : XElement → Bytes
x_path (x_put path ty opt d) = path
x_path (x_del path) = path

abbrev pub dod_opt : Bytes
dod_opt = codes "dod"

-- xMap_.find(path) != xMap_.end()
unfoldable pub has_path : Bytes → List XElement → Bool
has_path p [] = false
has_path p (x ∷ xs) = bytes_eq (x_path x) p || has_path p xs

-- ObexTransaction::putObject and delObject.
abbrev pub transaction_put : List XElement → Bytes → Bytes → Bytes → Bool → Option (List XElement)
transaction_put xs path ty d dod =
    guard (not (has_path path xs))
    >> some (xs ++ (x_put path ty (if dod then dod_opt else []) d ∷ []))

abbrev pub transaction_del : List XElement → Bytes → Option (List XElement)
transaction_del xs path = guard (not (has_path path xs)) >> some (xs ++ (x_del path ∷ []))

-- A number as ostream prints it.
unfoldable pub digits : ℕ → ℕ → Bytes → Bytes
digits zero n acc = acc
digits (suc fuel) n acc =
    let more = digits fuel (n / 10) ((n % 10 + b'0') ∷ acc) in
    if ltb n 10 then (n + b'0') ∷ acc else more

abbrev pub decimal : ℕ → Bytes
decimal n = digits (suc n) n []

abbrev is_digit : ℕ → Bool
is_digit c = leb b'0' c && leb c b'9'

unfoldable pub read_digits : ℕ → Bytes → ℕ
read_digits v [] = v
read_digits v (c ∷ s) =
    let more = read_digits (v * 10 + (c - b'0')) s in if is_digit c then more else v

abbrev is_space : ℕ → Bool
is_space c = c == b' ' || (leb 9 c && leb c 13)

-- An int, by its low 32 bits, as a size_t: the sign is extended.
abbrev pub size_of_int : ℕ → ℕ
size_of_int w = if ltb w (2 ^ 31) then w else w + (2 ^ 64 - 2 ^ 32)

-- atoi, as a size_t: strtol stops at the ends of a long, whose low 32 bits are the int.
unfoldable pub atoi : Bytes → ℕ
atoi [] = 0
atoi (c ∷ s) =
    let skipped = atoi s in
    if is_space c
    then skipped
    else if c == b'-'
    then size_of_int ((2 ^ 64 - min (read_digits 0 s) (2 ^ 63)) % 2 ^ 32)
    else if c == b'+'
    then size_of_int (min (read_digits 0 s) (2 ^ 63 - 1) % 2 ^ 32)
    else size_of_int (min (read_digits 0 (c ∷ s)) (2 ^ 63 - 1) % 2 ^ 32)

-- The text of an element.
unfoldable pub element_text : XElement → Bytes
element_text (x_del path) = codes "{del," ++ (path ++ (b'}' ∷ []))
element_text (x_put path ty opt d) =
    codes "{put,"
    ++ (decimal (length d)
        ++ (b',' ∷ (path ++ (b',' ∷ (ty ++ (b',' ∷ (opt ++ (b'=' ∷ (d ++ (b'}' ∷ []))))))))))

unfoldable pub transaction_text : List XElement → Bytes
transaction_text [] = []
transaction_text (x ∷ xs) = element_text x ++ transaction_text xs

-- xactionData.at(pos) == c
abbrev pub expect : Bytes → ℕ → ℕ → Option (Unit {0})
expect s pos c = elim (get_elem? s pos) [ none ↦ none | some d ↦ guard (d == c) ]

-- The elements behind "{put": `next` is the place of the comma that ends the word.
unfoldable pub parse_put : Bytes → List XElement → ℕ → Option (List XElement × ℕ)
parse_put s xs next0 = do
  let p1 = add_size next0 1
  let n1 = find_byte b',' s p1
  len_text ← substr s p1 (sub_size n1 p1)
  let p2 = add_size n1 1
  let n2 = find_byte b',' s p2
  path ← substr s p2 (sub_size n2 p2)
  let p3 = add_size n2 1
  let n3 = find_byte b',' s p3
  type_name ← substr s p3 (sub_size n3 p3)
  let p4 = add_size n3 1
  let n4 = find_byte b'=' s p4
  opt ← substr s p4 (sub_size n4 p4)
  let p5 = add_size n4 1
  let n5 = add_size p5 (atoi len_text)
  u ← expect s n5 b'}'
  obj_data ← substr s p5 (sub_size n5 p5)
  xs' ← transaction_put xs path type_name obj_data (bytes_eq opt dod_opt)
  some (xs', n5)

unfoldable pub parse_del : Bytes → List XElement → ℕ → Option (List XElement × ℕ)
parse_del s xs next0 = do
  let p1 = add_size next0 1
  let n1 = find_byte b'}' s p1
  u ← expect s n1 b'}'
  path ← substr s p1 (sub_size n1 p1)
  xs' ← transaction_del xs path
  some (xs', n1)

-- The loop of handleTransactionMsg. A round moves on by at least a byte where the text is well
-- formed.
unfoldable pub parse_loop : ℕ → Bytes → List XElement → ℕ → Option (List XElement)
parse_loop zero s xs pos = none
parse_loop (suc fuel) s xs pos = if leb (length s) pos then some xs else do
  u ← expect s pos b'{'
  let p = add_size pos 1
  let next = find_byte b',' s p
  op ← substr s p (sub_size next p)
  r ←
      if bytes_eq op (codes "put")
      then parse_put s xs next
      else if bytes_eq op (codes "del")
      then parse_del s xs next
      else none
  parse_loop fuel s r.0 (add_size r.1 1)

unfoldable pub parse_transaction : Bytes → Option (List XElement)
parse_transaction s = parse_loop (suc (length s)) s [] 0
