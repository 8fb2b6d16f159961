-- ===== src/MsgIo/Cursor.antt =====
-- Searches and pieces of a text from a position on, for the parsers of src/MsgIo.cpp.
use objxp.Common.{
  ℕ, zero, suc, ◌+◌, ◌-◌, ◌*◌, ◌/◌, ◌%◌, ◌^◌, min, ◌≤◌, append_assoc, ◌<◌, ◌≡◌, ◌≢◌, refl, sym, ap,
  ◌∙◌, inl, inr, true, false, ◌&&◌, ◌||◌, [], ◌∷◌, ◌++◌, Option, none, some, arith, Bytes, Lacks,
  All, length, length-append, get_elem?, ltb, leb, ◌==◌, Bool-cases, guard,
}
use objxp.MsgIo.Put.{npos, add_size, sub_size, find_byte, substr}
use objxp.MsgIo.PutInfo.{find_byte-append, substr-append}
use objxp.MsgIo.Transaction.{digits, decimal, read_digits, atoi, expect}

-- What is left of a text from a position on.
pub record At (s : Bytes) (pos : ℕ) (rest : Bytes) : Type 0 where
  pub front : Bytes
  pub parts : s ≡ front ++ rest
  pub place : pos ≡ length front

pub At-start : (s : Bytes) → At s 0 s
At-start s = record { front = []; parts = refl; place = omega arith }

pub At-skip :
    (s : Bytes) (pos : ℕ) (a rest : Bytes) → At s pos (a ++ rest) → At s (pos + length a) rest
At-skip s pos a rest h = record {
  front = h.front ++ a;
  parts = h.parts ∙ sym (append_assoc h.front a rest);
  place = omega (arith, length-append h.front a, h.place);
}

pub At-length : (s : Bytes) (pos : ℕ) (rest : Bytes) → At s pos rest → length s ≡ pos + length rest
At-length s pos rest h = ap length h.parts ∙ length-append h.front rest ∙ omega (arith, h.place)

pub At-find_byte :
    (b : ℕ) (s : Bytes) (pos : ℕ) (a rest : Bytes)
    → At s pos (a ++ (b ∷ rest))
    → Lacks b a
    → find_byte b s pos ≡ pos + length a
At-find_byte b s pos a rest h k = find_byte-append b s h.front a rest pos h.parts h.place k

pub At-substr :
    (s : Bytes) (pos : ℕ) (a rest : Bytes) (n : ℕ)
    → At s pos (a ++ rest)
    → n ≡ length a
    → substr s pos n ≡ some a
At-substr s pos a rest n h e = substr-append s h.front a rest pos n h.parts h.place e

get_elem-append :
    (a : Bytes) (c : ℕ) (rest : Bytes) → get_elem? (a ++ (c ∷ rest)) (length a) ≡ some c
get_elem-append [] c rest = refl
get_elem-append (x ∷ a) c rest = get_elem-append a c rest

pub At-expect :
    (s : Bytes) (pos c : ℕ) (rest : Bytes) → At s pos (c ∷ rest) → expect s pos c ≡ some tt
At-expect s pos c rest h =
    let e : get_elem? s pos ≡ some c =
      ap (λ (n : ℕ). get_elem? s n) h.place
      ∙ ap (λ t. get_elem? t (length h.front)) h.parts
      ∙ get_elem-append h.front c rest in
    let same : (c == c) ≡ true = ground arith in
    ap
      (λ (o : Option ℕ). elim o as (λ x. Option (Unit {0})) [
        | none ↦ none
        | some d ↦ guard (d == c)
      ])
      e
    ∙ rw same

-- A field of a text, up to the byte that ends it: where it ends, what it is, and what follows.
pub record Field (b : ℕ) (s : Bytes) (pos : ℕ) (a rest : Bytes) : Type 0 where
  pub end : find_byte b s pos ≡ pos + length a
  pub size : sub_size (pos + length a) pos ≡ length a
  pub text : substr s pos (sub_size (pos + length a) pos) ≡ some a
  pub behind : add_size (pos + length a) 1 ≡ pos + length a + 1
  pub next : At s (pos + length a + 1) rest
  pub here : At s (pos + length a) (b ∷ rest)

pub find_byte-Field :
    (b : ℕ) (s : Bytes) (pos : ℕ) (a rest : Bytes)
    → At s pos (a ++ (b ∷ rest))
    → Lacks b a
    → length s < npos
    → Field b s pos a rest
find_byte-Field b s pos a rest h k short =
    let len = At-length s pos (a ++ (b ∷ rest)) h in
    let len' = length-append a (b ∷ rest) in
    let size : sub_size (pos + length a) pos ≡ length a = omega (arith, len, len') in
    let here = At-skip s pos a (b ∷ rest) h in
    record {
      end = At-find_byte b s pos a rest h k;
      size = size;
      text = At-substr s pos a (b ∷ rest) (sub_size (pos + length a) pos) h size;
      behind = omega (arith, len, len');
      next = At-skip s (pos + length a) (b ∷ []) rest here;
      here = here;
    }

read_digits-digits :
    (fuel n : ℕ) (acc : Bytes) → n < fuel → read_digits 0 (digits fuel n acc) ≡ read_digits n acc
unfolding digits read_digits
read_digits-digits zero n acc h = absurd (omega arith)
read_digits-digits (suc fuel) n acc h = elim (Bool-cases (ltb n 10)) [
  | inl e ↦
      let digit : (leb b'0' (n + b'0') && leb (n + b'0') b'9') ≡ true = ground arith in
      let value : 0 * 10 + (n + b'0' - b'0') ≡ n = omega arith in rw (e, digit, value)
  | inr e ↦
      let digit : (leb b'0' (n % 10 + b'0') && leb (n % 10 + b'0') b'9') ≡ true = ground arith in
      let value : n / 10 * 10 + (n % 10 + b'0' - b'0') ≡ n = omega arith in
      rw (e, read_digits-digits fuel (n / 10) ((n % 10 + b'0') ∷ acc) (ground arith), digit, value)
]

-- Digits have no comma, and begin with no space and no sign.
digits-All :
    (P : ℕ → Type 0)
    → ((k : ℕ) → k < 10 → P (k + b'0'))
    → (fuel n : ℕ) (acc : Bytes) → All P acc
    → All P (digits fuel n acc)
unfolding digits
digits-All P h zero n acc k = k
digits-All P h (suc fuel) n acc k = elim (Bool-cases (ltb n 10)) [
  | inl e ↦ rw e (h n (ground arith), k)
  | inr e ↦
      rw e (digits-All P h fuel (n / 10) ((n % 10 + b'0') ∷ acc) (h (n % 10) (omega arith), k))
]

pub decimal-Lacks : (n : ℕ) → Lacks b',' (decimal n)
decimal-Lacks n = digits-All (λ c. c ≢ b',') (λ k h q. absurd (omega arith)) (suc n) n [] tt

atoi-digits :
    (s : Bytes) → All (λ c. b'0' ≤ c) s → read_digits 0 s < 2 ^ 31 → atoi s ≡ read_digits 0 s
unfolding atoi
atoi-digits [] h k = unfold read_digits in refl
atoi-digits (c ∷ s) h k =
    let space : (c == b' ' || (leb 9 c && leb c 13)) ≡ false = ground arith in
    let minus : (c == b'-') ≡ false = ground arith in
    let plus : (c == b'+') ≡ false = ground arith in
    let low : min (read_digits 0 (c ∷ s)) (2 ^ 63 - 1) % 2 ^ 32 ≡ read_digits 0 (c ∷ s) =
      omega arith in
    let positive : ltb (read_digits 0 (c ∷ s)) (2 ^ 31) ≡ true = ground arith in
    rw (space, minus, plus, low, positive)

pub atoi-decimal : (n : ℕ) → n < 2 ^ 31 → atoi (decimal n) ≡ n
unfolding read_digits
atoi-decimal n h =
    let value : read_digits 0 (decimal n) ≡ n = read_digits-digits (suc n) n [] (omega arith) in
    atoi-digits (decimal n) (digits-All (λ c. b'0' ≤ c) (λ k h. omega arith) (suc n) n [] tt)
      (omega (arith, value))
    ∙ value
