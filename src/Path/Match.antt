-- ===== src/Path/Match.antt =====
-- ObexTree::objPathMatchesCbPath of src/ObexTree.cpp against the three kinds of callback path.
use objxp.Common.{
  ℕ, ◌+◌, ◌-◌, ◌≤◌, ◌<◌, ◌^◌, ◌%◌, ◌≡◌, ◌≢◌, refl, sym, ap, ◌∙◌, ◌↔◌, inl, inr, true, false, not,
  ◌&&◌, [], ◌∷◌, ◌++◌, none, some, arith, Bytes, Lacks, bytes_eq, bytes_eq→eq, bytes_eq_refl,
  bytes_eq_iff, contains, contains-Lacks, Lacks-contains, starts_with, starts_with-append,
  starts_with→append, codes, length, length-append, take, drop, take-append, drop-append,
  take-append-drop, append_assoc, Bool-cases,
}
use objxp.Path.{
  all_path_chars, last_byte, drop_last, valid_obj_path, valid_cb_path, compare_tail,
  obj_path_matches_cb_path,
}

-- Behind a test of the length the comparison is the plain one.
compare_tail_lem :
    (s : Bytes) (n : ℕ) (suffix : Bytes)
    → n ≤ length s
    → length s < 2 ^ 64
    → compare_tail s n suffix ≡ some (bytes_eq (drop (length s - n) s) suffix)
unfolding compare_tail
compare_tail_lem s n suffix h k =
    let e : (length s + 2 ^ 64 - n) % 2 ^ 64 ≡ length s - n = omega arith in rw e (ground arith)

last_byte-snoc : (c x : ℕ) (s : Bytes) → last_byte c (s ++ x ∷ []) ≡ x
unfolding last_byte
last_byte-snoc c x [] = refl
last_byte-snoc c x (d ∷ s) = last_byte-snoc d x s

last_byte_of_tail :
    (c a b : ℕ) (n : ℕ) (s : Bytes) → bytes_eq (drop n s) (a ∷ b ∷ []) ≡ true → last_byte c s ≡ b
last_byte_of_tail c a b n s h =
    let e : take n s ++ (a ∷ b ∷ []) ≡ s =
      ap (λ t. take n s ++ t) (sym (bytes_eq→eq (drop n s) _ h)) ∙ take-append-drop n s in
    ap (last_byte c) (sym e)
    ∙ ap (last_byte c) (sym (append_assoc (take n s) (a ∷ []) (b ∷ [])))
    ∙ last_byte-snoc c b (take n s ++ a ∷ [])

drop_tail : (c suffix : Bytes) → drop (length (c ++ suffix) - length suffix) (c ++ suffix) ≡ suffix
drop_tail c suffix =
    let e : length (c ++ suffix) - length suffix ≡ length c =
      omega (arith, length-append c suffix) in
    rw e (drop-append c suffix)

drop_last_append : (c suffix : Bytes) → drop_last (length suffix) (c ++ suffix) ≡ c
drop_last_append c suffix =
    let e : length (c ++ suffix) - length suffix ≡ length c =
      omega (arith, length-append c suffix) in
    rw e (take-append c suffix)

compare_tail_hit :
    (c suffix : Bytes)
    → length (c ++ suffix) < 2 ^ 64
    → compare_tail (c ++ suffix) (length suffix) suffix ≡ some true
compare_tail_hit c suffix k =
    compare_tail_lem (c ++ suffix) (length suffix) suffix (omega (arith, length-append c suffix)) k
    ∙ ap (λ t. some (bytes_eq t suffix)) (drop_tail c suffix)
    ∙ ap some (bytes_eq_refl suffix)

-- A comparison with a tail of two bytes fails, if the last byte is another.
compare_tail_miss :
    (c a b : ℕ) (s : Bytes)
    → 2 ≤ length s
    → length s < 2 ^ 64
    → last_byte c s ≢ b
    → compare_tail s 2 (a ∷ b ∷ []) ≡ some false
compare_tail_miss c a b s h k ne =
    elim (Bool-cases (bytes_eq (drop (length s - 2) s) (a ∷ b ∷ []))) [
      | inl e ↦ absurd (ne (last_byte_of_tail c a b (length s - 2) s e))
      | inr e ↦ compare_tail_lem s 2 (a ∷ b ∷ []) h k ∙ ap some e
    ]

-- For an object path and a callback path that are both valid, a callback path for all descendants
-- matches exactly the object paths that begin with the text before its last two bytes.
pub matches-all_descendants :
    (p c : Bytes)
    → valid_obj_path p ≡ some true
    → valid_cb_path (c ++ codes "/*") ≡ some true
    → length (c ++ codes "/*") < 2 ^ 64
    → (obj_path_matches_cb_path p (c ++ codes "/*") ≡ some true) ↔ ((r : Bytes) × (p ≡ c ++ r))
matches-all_descendants p c hp hc k =
    let run : obj_path_matches_cb_path p (c ++ codes "/*") ≡ some (starts_with c p) =
      unfold obj_path_matches_cb_path in
      rw (hp, hc, compare_tail_hit c (codes "/*") k, drop_last_append c (codes "/*")) in
    (
      λ e. starts_with→append c p (cc),
      λ (r, e). run ∙ ap some (ap (starts_with c) e ∙ starts_with-append c r),
    )

abbrev pub IsChildOf : Bytes → Bytes → Type 0
IsChildOf p c = (t : Bytes) × (p ≡ (c ++ codes "/") ++ t) × Lacks b'/' t

child_test :
    (p s : Bytes)
    → ((starts_with s p && not (contains b'/' (drop (length s) p))) ≡ true)
      ↔ ((t : Bytes) × (p ≡ s ++ t) × Lacks b'/' t)
child_test p s = (there, back)
  where
    there :
        (starts_with s p && not (contains b'/' (drop (length s) p))) ≡ true
        → (t : Bytes) × (p ≡ s ++ t) × Lacks b'/' t
    there h =
        let (t, e) = starts_with→append s p (ground arith) in
        let d : drop (length s) p ≡ t = ap (drop (length s)) e ∙ drop-append s t in
        (t, e, contains-Lacks b'/' t (ground (arith, ap (contains b'/') d)))

    back :
        ((t : Bytes) × (p ≡ s ++ t) × Lacks b'/' t)
        → (starts_with s p && not (contains b'/' (drop (length s) p))) ≡ true
    back (t, e, h) = rw (e, starts_with-append s t, drop-append s t, Lacks-contains b'/' t h)

matches-immediate_children :
    (p c : Bytes)
    → valid_obj_path p ≡ some true
    → valid_cb_path (c ++ codes "/") ≡ some true
    → c ≢ []
    → length (c ++ codes "/") < 2 ^ 64
    → (obj_path_matches_cb_path p (c ++ codes "/") ≡ some true) ↔ IsChildOf p c
matches-immediate_children p [] hp hc ne k = absurd (ne refl)
matches-immediate_children p (x ∷ c) hp hc ne k =
    let cb : Bytes = x ∷ c ++ codes "/" in
    let miss : compare_tail cb 2 (codes "/*") ≡ some false =
      compare_tail_miss x b'/' b'*' cb (omega (arith, length-append c (codes "/"))) k
        (λ e. absurd (omega (arith, last_byte-snoc x b'/' (x ∷ c)))) in
    let run : obj_path_matches_cb_path p cb
        ≡ some (starts_with cb p && not (contains b'/' (drop (length cb) p))) =
      unfold obj_path_matches_cb_path in
      rw (hp, hc, miss, compare_tail_hit (x ∷ c) (codes "/") k) in
    (λ e. (child_test p cb).0 (ground (arith, run)), λ m. run ∙ ap some ((child_test p cb).1 m))

path_chars-no_star : (c : ℕ) (s : Bytes) → all_path_chars (c ∷ s) ≡ true → last_byte c s ≢ b'*'
unfolding all_path_chars last_byte
path_chars-no_star c [] h = ground arith
path_chars-no_star c (d ∷ s) h = path_chars-no_star d s (ground arith)

last_byte_of_last :
    (c a : ℕ) (n : ℕ) (s : Bytes) → bytes_eq (drop n s) (a ∷ []) ≡ true → last_byte c s ≡ a
last_byte_of_last c a n s h =
    ap (last_byte c)
      (sym (ap (λ t. take n s ++ t) (sym (bytes_eq→eq (drop n s) _ h)) ∙ take-append-drop n s))
    ∙ last_byte-snoc c a (take n s)

valid_last :
    (c d : ℕ) (s : Bytes)
    → valid_obj_path (c ∷ d ∷ s) ≡ some true
    → (last_byte c (d ∷ s) ≢ b'/') × (last_byte c (d ∷ s) ≢ b'*')
unfolding valid_obj_path bytes_eq
valid_last c d s h = (λ e. ground arith, path_chars-no_star c (d ∷ s) (ground arith))

compare_tail_miss_one :
    (c a : ℕ) (s : Bytes)
    → 1 ≤ length s
    → length s < 2 ^ 64
    → last_byte c s ≢ a
    → compare_tail s 1 (a ∷ []) ≡ some false
compare_tail_miss_one c a s h k ne = elim (Bool-cases (bytes_eq (drop (length s - 1) s) (a ∷ []))) [
  | inl e ↦ absurd (ne (last_byte_of_last c a (length s - 1) s e))
  | inr e ↦ compare_tail_lem s 1 (a ∷ []) h k ∙ ap some e
]

matches-current_node_only :
    (p cb : Bytes)
    → valid_obj_path p ≡ some true
    → valid_obj_path cb ≡ some true
    → valid_cb_path cb ≡ some true
    → 2 ≤ length cb
    → length cb < 2 ^ 64
    → (obj_path_matches_cb_path p cb ≡ some true) ↔ (p ≡ cb)
unfolding last_byte
matches-current_node_only p [] hp ho hc two k = absurd (omega arith)
matches-current_node_only p (c ∷ []) hp ho hc two k = absurd (omega arith)
matches-current_node_only p (c ∷ d ∷ s) hp ho hc two k =
    let cb : Bytes = c ∷ d ∷ s in
    let last = valid_last c d s ho in
    let run : obj_path_matches_cb_path p cb ≡ some (bytes_eq p cb) =
      unfold obj_path_matches_cb_path in
      rw (
        hp,
        hc,
        compare_tail_miss c b'/' b'*' cb (omega arith) k last.1,
        compare_tail_miss_one c b'/' cb (omega arith) k last.0,
      ) in
    (λ e. bytes_eq→eq p cb (ground (arith, run)), λ e. run ∙ ap some ((bytes_eq_iff p cb).1 e))

-- For a valid object path and a path other than the root that is valid as an object path and as a
-- callback path, also with a slash behind it: the path as a callback path matches itself and no
-- other path, and with the slash, for immediate children, exactly the paths that add one name to it.
pub matches-one_level :
    (p c : Bytes)
    → valid_obj_path p ≡ some true
    → valid_obj_path c ≡ some true
    → valid_cb_path c ≡ some true
    → valid_cb_path (c ++ codes "/") ≡ some true
    → 2 ≤ length c
    → length (c ++ codes "/") < 2 ^ 64
    → ((obj_path_matches_cb_path p c ≡ some true) ↔ (p ≡ c))
      × ((obj_path_matches_cb_path p (c ++ codes "/") ≡ some true) ↔ IsChildOf p c)
matches-one_level p [] hp ho hc hs two k = absurd (omega arith)
matches-one_level p (x ∷ c) hp ho hc hs two k = (
  matches-current_node_only p (x ∷ c) hp ho hc two
      (omega (arith, length-append (x ∷ c) (codes "/"))),
  matches-immediate_children p (x ∷ c) hp hs (λ e. cc) k,
)

-- The callback path "/" (the children of the root) is valid, and yet the match of any valid object
-- path against it throws: the test for "/*" starts two bytes before the end of a one-byte string.
pub matches_root_children_throws :
    (p : Bytes)
    → valid_obj_path p ≡ some true
    → (valid_cb_path (codes "/") ≡ some true) × (obj_path_matches_cb_path p (codes "/") ≡ none)
matches_root_children_throws p hp =
    let ok : valid_cb_path (codes "/") ≡ some true = unfold valid_cb_path bytes_eq in refl in
    (ok, unfold obj_path_matches_cb_path in rw (hp, ok) (unfold compare_tail in refl))
