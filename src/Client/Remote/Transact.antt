-- ===== src/Client/Remote/Transact.antt =====
-- A transaction of ObexRemoteClientSession of src/ObexClient.cpp, from its calls to what the
-- server's handleTransactionMsg of src/MsgIo.cpp reads.
use objxp.Common.{
  ℕ, ◌^◌, ◌<◌, ◌≡◌, refl, sym, ap, ◌∙◌, Bool, true, false, List, [], ◌∷◌, ◌++◌, map, append-nil,
  append_assoc, Option, none, some, Bytes, is_empty, length, if◌then◌else◌, ◌>>=◌, All, Lacks,
  arith, inl, inr,
}
use objxp.Path.{valid_obj_path, all_path_chars, is_path_char}
use objxp.Path.Convert.{valid_obj_path-path_chars}
use objxp.MsgIo.Put.{npos}
use objxp.MsgIo.Transaction.{
  XElement, x_put, x_del, x_path, dod_opt, has_path, transaction_text, parse_transaction,
}
use objxp.MsgIo.ElementText.{IsElement, Fresh}
use objxp.MsgIo.Elements.{parse_transaction-transaction_text}
use objxp.Client.Remote.{
  Remote, x_action_msg, remote_put_object, remote_del_object, remote_begin_transaction,
  remote_end_transaction, remote_abort_transaction,
}

pub data RemoteCall : Type 0 where
  -- putObject with path, type name, data and delOnDisconnect, and delObject.
  call_put : Bytes → Bytes → Bytes → Bool → RemoteCall
  call_del : Bytes → RemoteCall

abbrev pub remote_call : Remote → RemoteCall → Option Remote
remote_call r (call_put path ty d dod) = remote_put_object r path ty d dod
remote_call r (call_del path) = remote_del_object r path

unfoldable pub remote_calls : Remote → List RemoteCall → Option Remote
remote_calls r [] = some r
remote_calls r (c ∷ cs) = do r' ← remote_call r c; remote_calls r' cs

abbrev pub element_of : RemoteCall → XElement
element_of (call_put path ty d dod) = x_put path ty (if dod then dod_opt else []) d
element_of (call_del path) = x_del path

abbrev pub elements_of : List RemoteCall → List XElement
elements_of = map element_of

-- The path is valid, the type name has no comma, and an int holds the length of the data.
abbrev pub IsCall : RemoteCall → Type 0
IsCall (call_put path ty d dod) =
    (valid_obj_path path ≡ some true) × Lacks b',' ty × (length d < 2 ^ 31)
IsCall (call_del path) = valid_obj_path path ≡ some true

path_chars-Lacks_char :
    (b : ℕ) (s : Bytes) → is_path_char b ≡ false → all_path_chars s ≡ true → Lacks b s
unfolding all_path_chars
path_chars-Lacks_char b [] h e = tt
path_chars-Lacks_char b (c ∷ s) h e =
    ((λ q. ground (arith, ap is_path_char q)), path_chars-Lacks_char b s h (ground arith))

element_of-IsElement : (c : RemoteCall) → IsCall c → IsElement (element_of c)
element_of-IsElement (call_put path ty d true) (h, t, l) =
    (path_chars-Lacks_char b',' path refl (valid_obj_path-path_chars path h), t, inl refl, l)
element_of-IsElement (call_put path ty d false) (h, t, l) =
    (path_chars-Lacks_char b',' path refl (valid_obj_path-path_chars path h), t, inr refl, l)
element_of-IsElement (call_del path) h =
    path_chars-Lacks_char b'}' path refl (valid_obj_path-path_chars path h)

elements_of-IsElement : (cs : List RemoteCall) → All IsCall cs → All IsElement (elements_of cs)
elements_of-IsElement [] h = tt
elements_of-IsElement (c ∷ cs) (h, hs) = (element_of-IsElement c h, elements_of-IsElement cs hs)

remote_call_lem :
    (r : Remote) (xs : List XElement) (c : RemoteCall)
    → r.x_action ≡ some xs
    → IsCall c
    → has_path (x_path (element_of c)) xs ≡ false
    → remote_call r c ≡ some (record r { x_action = some (xs ++ (element_of c ∷ [])) })
unfolding remote_put_object remote_del_object
remote_call_lem r xs (call_put path ty d dod) e (h, t, l) f = rw (h, e, f) refl
remote_call_lem r xs (call_del path) e h f = rw (h, e, f) refl

remote_calls_lem :
    (r : Remote) (xs : List XElement) (cs : List RemoteCall)
    → r.x_action ≡ some xs
    → All IsCall cs
    → Fresh xs (elements_of cs)
    → remote_calls r cs ≡ some (record r { x_action = some (xs ++ elements_of cs) })
unfolding remote_calls
remote_calls_lem r xs [] e h f =
    ap (λ (x : Option (List XElement)). some (record r { x_action = x }))
      (e ∙ ap (λ t. some t) (sym (append-nil xs)))
remote_calls_lem r xs (c ∷ cs) e (h, hs) (f, fs) =
    let r' : Remote = record r { x_action = some (xs ++ (element_of c ∷ [])) } in
    ap (λ x. x >>= λ y. remote_calls y cs) (remote_call_lem r xs c e h f)
    ∙ remote_calls_lem r' (xs ++ (element_of c ∷ [])) cs refl hs fs
    ∙ ap (λ (x : List XElement). some (record r { x_action = some x }))
        (append_assoc xs (element_of c ∷ []) (elements_of cs))

ended :
    (r : Remote) (cs : List RemoteCall)
    → r.x_action ≡ none
    → remote_end_transaction (record r { x_action = some (elements_of cs) })
      ≡ some (record r {
        messages = r.messages ++ (if is_empty cs then [] else x_action_msg (elements_of cs) ∷ []);
      })
unfolding remote_end_transaction
ended r [] e = ground (arith, append-nil r.messages)
ended r (c ∷ cs) e = ground arith

-- In a session with no open transaction, take calls of putObject and delObject at valid paths of
-- which no two are equal, with type names that have no comma and data shorter than 2^31 bytes,
-- whose text as a transaction is shorter than npos. Then beginTransaction, these calls and
-- endTransaction all return. The calls send nothing; abortTransaction in place of the end gives the
-- session back as it was before; the end sends one message, or none if there was no call, with the
-- elements of the calls in order; and the server's parser reads these elements from its text.
pub remote_transaction :
    (r : Remote) (cs : List RemoteCall)
    → r.x_action ≡ none
    → All IsCall cs
    → Fresh [] (elements_of cs)
    → length (transaction_text (elements_of cs)) < npos
    → (r' r'' : Remote) × (remote_begin_transaction r ≡ some r')
      × (remote_calls r' cs ≡ some r'')
      × (r''.messages ≡ r.messages)
      × (remote_abort_transaction r'' ≡ some r)
      × (remote_end_transaction r''
          ≡ some (record r {
            messages =
                r.messages ++ (if is_empty cs then [] else x_action_msg (elements_of cs) ∷ []);
          }))
      × (parse_transaction (transaction_text (elements_of cs)) ≡ some (elements_of cs))
unfolding remote_begin_transaction remote_abort_transaction
remote_transaction r cs e h f k =
    let r' : Remote = record r { x_action = some [] } in
    (
      r',
      record r { x_action = some (elements_of cs) },
      rw e refl,
      remote_calls_lem r' [] cs refl h f,
      refl,
      ap (λ (x : Option (List XElement)). some (record r { x_action = x })) (sym e),
      ended r cs e,
      parse_transaction-transaction_text (elements_of cs) (elements_of-IsElement cs h) f k,
    )
