-- ===== src/MsgIo/PutRun.antt =====
-- Put messages of src/MsgIo.cpp that arrive in fragments are handed over whole, in order.
use objxp.Common.{
  ℕ, ◌<◌, ◌≡◌, ◌≢◌, refl, sym, ap, ◌∙◌, inl, inr, true, false, List, [], ◌∷◌, ◌++◌, map, some,
  arith, Bytes, Lacks, All, All-append, append_assoc, contains, contains-Lacks, length, is_empty,
  if◌then◌else◌, Bool-cases,
}
use objxp.MsgIo.{Frame}
use objxp.MsgIo.Put.{
  PutObjectMsg, info_text, make_serialized_msg, PutRx, init_put, split_eq, finish_put,
  handle_put_object_msg, put_run, more_frag,
}
use objxp.MsgIo.PutInfo.{IsPut, parse_info-info_text}
use objxp.MsgIo.Carries.{IsFlag, payload, join_frags}
use objxp.MsgIo.Puts.{
  state_of, split_eq-append, split_eq-behind, handle_before, handle_behind,
  handle_put_object_msg-more,
}

-- The text before the data, without its last byte.
abbrev head_text : PutObjectMsg → Bytes
head_text m = m.path ++ (b',' ∷ (m.type_name ++ (if is_empty m.opt then [] else b',' ∷ m.opt)))

info_text-head_text : (m : PutObjectMsg) → info_text m ≡ head_text m ++ (b'=' ∷ [])
info_text-head_text m =
    let o : Bytes = if is_empty m.opt then [] else b',' ∷ m.opt in
    ap (λ t. m.path ++ (b',' ∷ t)) (sym (append_assoc m.type_name o (b'=' ∷ [])))
    ∙ sym (append_assoc m.path (b',' ∷ (m.type_name ++ o)) (b'=' ∷ []))

head_text-Lacks :
    (m : PutObjectMsg)
    → Lacks b'=' m.path
    → Lacks b'=' m.type_name
    → Lacks b'=' m.opt
    → Lacks b'=' (head_text m)
head_text-Lacks m hp ht ho =
    let o : Bytes = if is_empty m.opt then [] else b',' ∷ m.opt in
    All-append (λ c. c ≢ b'=') m.path (b',' ∷ (m.type_name ++ o)) hp
      (ground arith, All-append (λ c. c ≢ b'=') m.type_name o ht (option_text m.opt ho))
  where
    option_text : (o : Bytes) → Lacks b'=' o → Lacks b'=' (if is_empty o then [] else b',' ∷ o)
    option_text [] h = tt
    option_text (c ∷ o) h = (ground arith, h)

split_eq-info_text :
    (m : PutObjectMsg)
    → Lacks b'=' m.path
    → Lacks b'=' m.type_name
    → Lacks b'=' m.opt
    → split_eq (info_text m ++ m.data_text) ≡ (info_text m, m.data_text)
split_eq-info_text m hp ht ho =
    ap (λ t. split_eq (t ++ m.data_text)) (info_text-head_text m)
    ∙ ap split_eq (append_assoc (head_text m) (b'=' ∷ []) m.data_text)
    ∙ split_eq-append (head_text m) (b'=' ∷ m.data_text) (head_text-Lacks m hp ht ho)
    ∙ (unfold split_eq in ap (λ t. (t, m.data_text)) (sym (info_text-head_text m)))

finish_put-info_text :
    (m : PutObjectMsg) → IsPut m → finish_put (info_text m) m.data_text ≡ some (init_put, m ∷ [])
unfolding finish_put
finish_put-info_text m h = rw (parse_info-info_text m h)

-- The last fragment of a message.
handle_put_object_msg-last :
    (m : PutObjectMsg) (part d : Bytes)
    → IsPut m
    → part ++ d ≡ info_text m ++ m.data_text
    → handle_put_object_msg (state_of part) false d ≡ some (init_put, m ∷ [])
handle_put_object_msg-last m part d h e = elim (Bool-cases (contains b'=' part)) [
  | inl q ↦
      let s : ((split_eq part).0, (split_eq part).1 ++ d) ≡ (info_text m, m.data_text) =
        sym (split_eq-behind part d q)
        ∙ ap split_eq e
        ∙ split_eq-info_text m h.path_eq h.type_eq h.opt_eq in
      handle_behind part d false q
      ∙ ap (λ (t : Bytes × Bytes). finish_put t.0 t.1) s
      ∙ finish_put-info_text m h
  | inr q ↦
      let lacks = contains-Lacks b'=' part q in
      let s : (part ++ (split_eq d).0, (split_eq d).1) ≡ (info_text m, m.data_text) =
        sym (split_eq-append part d lacks)
        ∙ ap split_eq e
        ∙ split_eq-info_text m h.path_eq h.type_eq h.opt_eq in
      let more : is_empty (split_eq d).1 ≡ false =
        ap (λ (t : Bytes × Bytes). is_empty t.1) s ∙ not_empty m.data_text h.some_data in
      handle_before part d false lacks
      ∙ rw more (ap (λ (t : Bytes × Bytes). finish_put t.0 t.1) s ∙ finish_put-info_text m h)
]
  where
    not_empty : (s : Bytes) → 0 < length s → is_empty s ≡ false
    not_empty [] h = absurd (omega arith)
    not_empty (c ∷ s) h = refl

abbrev pub put_payload : PutObjectMsg → ℕ × Bytes
put_payload m = payload (make_serialized_msg m)

-- Where frames with the flags of sendMsg are, with their data joined at the fragments behind the
-- part that came before, the texts of some put messages, handlePutObjectMsg on the frames one after
-- the other, from its state after that part, passes on exactly these messages, in order, and ends
-- in its first state. The messages have data, no comma in path and type name, and no '=' in path,
-- type name and option.
pub put_run-join_frags :
    (fs : List Frame) (part : Bytes) (ms : List PutObjectMsg)
    → All IsFlag fs
    → All IsPut ms
    → join_frags part fs ≡ (map put_payload ms, [])
    → put_run (state_of part) fs ≡ some (init_put, ms)
unfolding join_frags put_run make_serialized_msg split_eq
put_run-join_frags [] part [] hf hm e =
    let start : state_of part ≡ init_put =
      ap (λ (t : List (ℕ × Bytes) × Bytes). state_of t.1) e ∙ (unfold split_eq in refl) in
    ap (λ (t : PutRx). some (t, [])) start
put_run-join_frags [] part (m ∷ ms) hf hm e = absurd (ground arith)
put_run-join_frags (f ∷ fs) part ms (inr more, hf) hm e =
    let is_more : more_frag f.flags ≡ true = rw more in
    let step : join_frags part (f ∷ fs) ≡ join_frags (part ++ f.data_bytes) fs = rw more in
    let rest = put_run-join_frags fs (part ++ f.data_bytes) ms hf hm (sym step ∙ e) in
    rw (is_more, handle_put_object_msg-more part f.data_bytes, rest)
put_run-join_frags (f ∷ fs) part [] (inl last, hf) hm e =
    let step : join_frags part (f ∷ fs)
        ≡ ((f.msg_type, part ++ f.data_bytes) ∷ (join_frags [] fs).0, (join_frags [] fs).1) =
      rw last in
    let clash : false ≡ true = ap (λ (t : List (ℕ × Bytes) × Bytes). is_empty t.0) (sym step ∙ e) in
    absurd (ground arith)
put_run-join_frags (f ∷ fs) part (m ∷ ms) (inl last, hf) (h, hm) e =
    let step : join_frags part (f ∷ fs)
        ≡ ((f.msg_type, part ++ f.data_bytes) ∷ (join_frags [] fs).0, (join_frags [] fs).1) =
      rw last in
    let e' = sym step ∙ e in
    let here : part ++ f.data_bytes ≡ info_text m ++ m.data_text =
      ap (λ (t : List (ℕ × Bytes) × Bytes). first t.0) e' in
    let later : join_frags [] fs ≡ (map put_payload ms, []) =
      ap (λ (t : List (ℕ × Bytes) × Bytes). (others t.0, t.1)) e' in
    let is_last : more_frag f.flags ≡ false = rw last in
    let rest : put_run init_put fs ≡ some (init_put, ms) =
      put_run-join_frags fs [] ms hf hm later in
    rw (is_last, handle_put_object_msg-last m part f.data_bytes h here, rest)
  where
    first : List (ℕ × Bytes) → Bytes
    first [] = []
    first (x ∷ xs) = x.1

    others : List (ℕ × Bytes) → List (ℕ × Bytes)
    others [] = []
    others (x ∷ xs) = xs

-- A put message with no data, in one frame, is lost: nothing is passed on, and its text stays
-- behind for the next message. Its path, type name and option have no '='.
pub handle_put_object_msg-no_data :
    (m : PutObjectMsg)
    → m.data_text ≡ []
    → Lacks b'=' m.path
    → Lacks b'=' m.type_name
    → Lacks b'=' m.opt
    → handle_put_object_msg init_put false (make_serialized_msg m).s_data
      ≡ some (record { obj_info = info_text m; ss = [] }, [])
unfolding handle_put_object_msg make_serialized_msg
handle_put_object_msg-no_data m e hp ht ho =
    let s : split_eq (info_text m ++ m.data_text) ≡ (info_text m, []) =
      split_eq-info_text m hp ht ho ∙ ap (λ t. (info_text m, t)) e in
    rw s
