-- ===== src/MsgIo/Puts.antt =====
-- handlePutObjectMsg of src/MsgIo.cpp on the fragments of put messages.
use objxp.Common.{
  ℕ, ◌≡◌, refl, ◌∙◌, inl, inr, Bool, true, false, not, ◌||◌, [], ◌∷◌, ◌++◌, some, arith, Bytes,
  Lacks, contains, contains-Lacks, is_empty, if◌then◌else◌, ◌==◌, Bool-cases,
}
use objxp.MsgIo.Put.{PutRx, ends_with_eq, split_eq, put_data, handle_put_object_msg}

-- The state after fragments whose data are `part`.
abbrev pub state_of : Bytes → PutRx
state_of part = let r = split_eq part in record { obj_info = r.0; ss = r.1 }

-- A part that lies in the text before the data.
pub split_eq-append :
    (part d : Bytes)
    → Lacks b'=' part
    → split_eq (part ++ d) ≡ (part ++ (split_eq d).0, (split_eq d).1)
unfolding split_eq
split_eq-append [] d h = refl
split_eq-append (c ∷ part) d h =
    let ne : (c == b'=') ≡ false = ground arith in rw (ne, split_eq-append part d h.1)

split_eq-Lacks : (part : Bytes) → Lacks b'=' part → split_eq part ≡ (part, [])
unfolding split_eq
split_eq-Lacks [] h = refl
split_eq-Lacks (c ∷ part) h =
    let ne : (c == b'=') ≡ false = ground arith in rw (ne, split_eq-Lacks part h.1)

ends_with_eq-Lacks : (part : Bytes) → Lacks b'=' part → ends_with_eq part ≡ false
unfolding ends_with_eq
ends_with_eq-Lacks [] h = refl
ends_with_eq-Lacks (c ∷ []) h = ground arith
ends_with_eq-Lacks (c ∷ e ∷ part) h = ends_with_eq-Lacks (e ∷ part) h.1

ends_with_eq-cons : (c : ℕ) (s : Bytes) → ends_with_eq s ≡ true → ends_with_eq (c ∷ s) ≡ true
unfolding ends_with_eq
ends_with_eq-cons c [] h = absurd (ground arith)
ends_with_eq-cons c (e ∷ s) h = h

not_empty : (s : Bytes) → ends_with_eq s ≡ true → is_empty s ≡ false
unfolding ends_with_eq
not_empty [] h = absurd (ground arith)
not_empty (c ∷ s) h = refl

-- A part that goes on behind it.
ends_with_eq-split_eq :
    (part : Bytes) → contains b'=' part ≡ true → ends_with_eq (split_eq part).0 ≡ true
unfolding split_eq contains
ends_with_eq-split_eq [] h = absurd (ground arith)
ends_with_eq-split_eq (c ∷ part) h = elim (Bool-cases (c == b'=')) [
  | inl e ↦ rw e (unfold ends_with_eq in e)
  | inr e ↦ rw e (ends_with_eq-cons c (split_eq part).0 (ends_with_eq-split_eq part (ground arith)))
]

pub split_eq-behind :
    (part d : Bytes)
    → contains b'=' part ≡ true
    → split_eq (part ++ d) ≡ ((split_eq part).0, (split_eq part).1 ++ d)
unfolding split_eq contains
split_eq-behind [] d h = absurd (ground arith)
split_eq-behind (c ∷ part) d h = elim (Bool-cases (c == b'=')) [
  | inl e ↦ rw e
  | inr e ↦ rw (e, split_eq-behind part d (ground arith))
]

-- One fragment, by the place of the part that came before it.
pub handle_before :
    (part d : Bytes) (more : Bool)
    → Lacks b'=' part
    → handle_put_object_msg (state_of part) more d ≡ (
        if is_empty (split_eq d).1
        then some (record { obj_info = part ++ (split_eq d).0; ss = [] }, [])
        else put_data (part ++ (split_eq d).0) [] more (split_eq d).1)
unfolding handle_put_object_msg
handle_before part d more h =
    let asks : (is_empty part || not (ends_with_eq part)) ≡ true =
      ground (arith, ends_with_eq-Lacks part h) in
    rw (split_eq-Lacks part h, asks)

pub handle_behind :
    (part d : Bytes) (more : Bool)
    → contains b'=' part ≡ true
    → handle_put_object_msg (state_of part) more d
      ≡ put_data (split_eq part).0 (split_eq part).1 more d
unfolding handle_put_object_msg
handle_behind part d more h =
    let e = ends_with_eq-split_eq part h in
    let asks : (is_empty (split_eq part).0 || not (ends_with_eq (split_eq part).0)) ≡ false =
      rw (e, not_empty (split_eq part).0 e) in
    rw asks

-- A fragment of which more follow goes to the end of the part.
pub handle_put_object_msg-more :
    (part d : Bytes)
    → handle_put_object_msg (state_of part) true d ≡ some (state_of (part ++ d), [])
handle_put_object_msg-more part d = elim (Bool-cases (contains b'=' part)) [
  | inl e ↦ handle_behind part d true e ∙ rw (split_eq-behind part d e)
  | inr e ↦ elim (Bool-cases (is_empty (split_eq d).1)) [
    | inl f ↦
        handle_before part d true (contains-Lacks b'=' part e)
        ∙ rw (f, split_eq-append part d (contains-Lacks b'=' part e), empty (split_eq d).1 f)
    | inr f ↦
        handle_before part d true (contains-Lacks b'=' part e)
        ∙ rw (f, split_eq-append part d (contains-Lacks b'=' part e))
  ]
]
  where
    empty : (s : Bytes) → is_empty s ≡ true → s ≡ []
    empty [] h = refl
    empty (c ∷ s) h = absurd (ground arith)
