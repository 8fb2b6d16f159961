-- ===== src/MsgIo/Sending.antt =====
-- sendData of src/MsgIo.cpp keeps the transmit buffer well formed, and what it carries.
use objxp.Common.{
  ℕ, zero, suc, ◌+◌, ◌-◌, ◌≤◌, ◌<◌, ◌≡◌, refl, sym, ap, ◌∙◌, ◌⊎◌, inl, inr, subst, Bool, true,
  false, List, [], ◌∷◌, ◌++◌, Option, none, some, arith, Bytes, length, length-append, length-take,
  length-drop, drop, drop_within, is_empty, Bool-cases, Option-cases,
}
use objxp.MsgIo.{Frame, encode_frame, hdr_len, fifo_size, fragment_threshold}
use objxp.MsgIo.Tx.{
  SerializedMsg, TxTracker, Tx, tx_fifo_room, send_round, next_turn, send_turn, send_loop,
  send_data,
}
use objxp.MsgIo.Rounds.{
  push, last_frame, fragment, send_round-last, send_round-fragment, send_round-waits,
}
use objxp.MsgIo.Carries.{Carries, Carries-last, Carries-fragment, Carries-next}

abbrev pub lens : List TxTracker → ℕ
lens [] = 0
lens (t ∷ ts) = t.len + lens ts

lens-snoc : (ts : List TxTracker) (t : TxTracker) → lens (ts ++ (t ∷ [])) ≡ lens ts + t.len
lens-snoc [] t = omega arith
lens-snoc (u ∷ ts) t = omega (arith, lens-snoc ts t)

-- The trackers account for the buffer from the first message that is not sent to its end, and
-- while bytes are left the session waits for the socket.
pub record Buffer (tx : Tx) : Type 0 where
  pub heads : tx.tx_msg_head ≤ tx.tx_head
  pub ends : tx.tx_head ≤ length tx.tx_fifo
  pub total : tx.tx_msg_head + lens tx.tx_trackers ≡ length tx.tx_fifo
  pub room : length tx.tx_fifo ≤ fifo_size
  pub asked : tx.tx_head < length tx.tx_fifo → tx.tx_requested ≡ true

abbrev pub pending : Tx → Bytes
pending tx = drop tx.tx_head tx.tx_fifo

abbrev pub CarriesTx : List SerializedMsg → Bytes → Tx → Type 0
CarriesTx msgs wire tx = Carries msgs wire (pending tx) tx.s_msg tx.s_msg_tx_pos tx.tx_msg_list

abbrev pub Sending : List SerializedMsg → Bytes → Tx → Type 0
Sending msgs wire tx = Buffer tx × CarriesTx msgs wire tx

push-Buffer :
    (tx : Tx) (f : Frame) (m : Option SerializedMsg) (pos : ℕ)
    → Buffer tx
    → 0 < length f.data_bytes
    → length f.data_bytes ≤ tx_fifo_room tx
    → Buffer (record (push tx f) { s_msg = m; s_msg_tx_pos = pos })
push-Buffer tx f m pos b h k =
    let len = length-append tx.tx_fifo (encode_frame f) in
    record {
      heads = b.heads;
      ends = omega (arith, b.ends, len);
      total = omega (
        arith,
        b.total,
        len,
        lens-snoc tx.tx_trackers (record { id = []; len = hdr_len + length f.data_bytes }),
      );
      room = omega (arith, b.room, len);
      asked = λ q. refl;
    }

abbrev at_hand_count : Option SerializedMsg → ℕ
at_hand_count none = 0
at_hand_count (some m) = 1

List-cases : {A : Type 0} (l : List A) → (l ≡ []) ⊎ ((x : A) × (xs : List A) × (l ≡ x ∷ xs))
List-cases [] = inl refl
List-cases (x ∷ xs) = inr (x, xs, refl)

-- sendData goes on from a state to one that is well formed.
abbrev pub Ends : List SerializedMsg → Bytes → Option Tx → Type 0
Ends msgs wire r = (tx' : Tx) × (r ≡ some tx') × Sending msgs wire tx'

send_loop-turn :
    (fuel : ℕ) (tx : Tx) {o : Option SerializedMsg} {l : List SerializedMsg}
    → tx.s_msg ≡ o
    → tx.tx_msg_list ≡ l
    → send_loop (suc fuel) tx ≡ send_turn (λ t. send_loop fuel t) tx o l
unfolding send_loop
send_loop-turn fuel tx {o = o} e f =
    ap (λ s. send_turn (λ t. send_loop fuel t) tx s tx.tx_msg_list) e
    ∙ ap (send_turn (λ t. send_loop fuel t) tx o) f

-- What a round leaves of a well-formed state, and that a message sent to its end is put away.
abbrev RoundOk : List SerializedMsg → Bytes → Tx → Option (Tx × Bool) → Type 0
RoundOk msgs wire tx none = ⊥
RoundOk msgs wire tx (some r) =
    Sending msgs wire r.0 × (r.0.tx_msg_list ≡ tx.tx_msg_list) × (r.1 ≡ true → r.0.s_msg ≡ none)

module _ {msgs : List SerializedMsg} {wire : Bytes} where
  append-pending :
      (tx : Tx) (f : Frame) (m : Option SerializedMsg) (pos : ℕ)
      → Buffer tx
      → Carries msgs wire (pending tx ++ encode_frame f) m pos tx.tx_msg_list
      → Carries msgs wire (pending (push tx f)) m pos tx.tx_msg_list
  append-pending tx f m pos b c =
      subst (λ t. Carries msgs wire t m pos tx.tx_msg_list)
        (sym (drop_within tx.tx_head tx.tx_fifo (encode_frame f) b.ends)) c

  -- A round with a message at hand.
  send_round-RoundOk :
      (tx : Tx) (m : SerializedMsg)
      → Buffer tx
      → Carries msgs wire (pending tx) (some m) tx.s_msg_tx_pos tx.tx_msg_list
      → tx.s_msg ≡ some m
      → RoundOk msgs wire tx (send_round tx m)
  send_round-RoundOk tx m b c e =
      let pos = tx.s_msg_tx_pos in
      let room = tx_fifo_room tx in
      let (_, inside, valid) = c.partial in
      let left = length-drop pos m.s_data in
      elim (cases (length m.s_data - pos) room m.dont_frag) [
        | inl all ↦
            subst (RoundOk msgs wire tx) (sym (send_round-last tx m inside valid.int_size all)) (
              (
                push-Buffer tx (last_frame m pos) none 0 b (omega (arith, left))
                    (omega (arith, left)),
                append-pending tx (last_frame m pos) none 0 b
                    (Carries-last m c (omega (arith, left))),
              ),
              refl,
              λ q. refl,
            )
        | inr (part, inl (frag, enough)) ↦
            let f = fragment m pos room in
            let long : length f.data_bytes ≡ room =
              length-take room (drop pos m.s_data) ∙ omega (arith, left) in
            subst (RoundOk msgs wire tx)
              (sym (send_round-fragment tx m inside valid.int_size part frag enough))
              (
                (
                  push-Buffer tx f tx.s_msg (pos + room) b (omega (arith, long))
                      (omega (arith, long)),
                  subst (λ s. Carries msgs wire (pending (push tx f)) s (pos + room) tx.tx_msg_list)
                      (sym e)
                      (append-pending tx f (some m) (pos + room) b
                        (Carries-fragment m room c (omega arith) (omega arith))),
                ),
                refl,
                λ q. absurd (ground arith),
              )
        | inr (part, inr wait) ↦
            subst (RoundOk msgs wire tx)
              (sym (send_round-waits tx m inside valid.int_size part wait))
              (
                (b, subst (λ s. Carries msgs wire (pending tx) s pos tx.tx_msg_list) (sym e) c),
                refl,
                λ q. absurd (ground arith),
              )
      ]
    where
      cases :
          (n k : ℕ) (d : Bool)
          → n ≤ k
            ⊎ ((k < n)
                × ((d ≡ false) × (fragment_threshold ≤ k)
                    ⊎ ((d ≡ true) ⊎ (k < fragment_threshold))))
      cases n k d = ground arith

  after_round :
      (fuel : ℕ) (tx : Tx) (o : Option (Tx × Bool))
      → RoundOk msgs wire tx o
      → length tx.tx_msg_list < fuel
      → ((tx : Tx)
          → Sending msgs wire tx
          → at_hand_count tx.s_msg + length tx.tx_msg_list < fuel
          → Ends msgs wire (send_loop fuel tx))
      → Ends msgs wire (next_turn (λ t. send_loop fuel t) o)
  after_round fuel tx none ok k goes_on = absurd ok
  after_round fuel tx (some r) (s, list, end) k goes_on = elim (Bool-cases r.1) [
    | inl e ↦
        let more = goes_on r.0 s (omega (arith, ap at_hand_count (end e), ap length list)) in
        (more.0, rw e more.1, more.2)
    | inr e ↦ (r.0, rw e, s)
  ]

  -- The loop returns, on any fuel beyond the number of messages.
  send_loop-Ends :
      (fuel : ℕ) (tx : Tx)
      → Sending msgs wire tx
      → at_hand_count tx.s_msg + length tx.tx_msg_list < fuel
      → Ends msgs wire (send_loop fuel tx)
  send_loop-Ends zero tx s k = absurd (omega arith)
  send_loop-Ends (suc fuel) tx (b, c) k = elim (Option-cases tx.s_msg) [
    | inl e ↦ elim (List-cases tx.tx_msg_list) [
      | inl l ↦ (tx, send_loop-turn fuel tx e l, (b, c))
      | inr (m, ms, l) ↦
          let tx' : Tx = record tx { s_msg = some m; s_msg_tx_pos = 0; tx_msg_list = ms } in
          let c' : Carries msgs wire (pending tx) none tx.s_msg_tx_pos (m ∷ ms) =
            subst
              (λ (t : Option SerializedMsg × List SerializedMsg).
                Carries msgs wire (pending tx) t.0 tx.s_msg_tx_pos t.1)
              (rw (e, l)) c in
          let b' : Buffer tx' = record {
            heads = b.heads;
            ends = b.ends;
            total = b.total;
            room = b.room;
            asked = b.asked;
          } in
          let ok = send_round-RoundOk tx' m b' (Carries-next m c') refl in
          let some_data : is_empty m.s_data ≡ false = not_empty m.s_data c'.queued.0.some_data in
          let (end, q, s) =
            after_round fuel tx' (send_round tx' m) ok (omega (arith, ap length l))
              (send_loop-Ends fuel) in
          (end, send_loop-turn fuel tx e l ∙ rw some_data q, s)
    ]
    | inr (m, e) ↦
        let c' = subst (λ s. Carries msgs wire (pending tx) s tx.s_msg_tx_pos tx.tx_msg_list) e c in
        let ok = send_round-RoundOk tx m b c' e in
        let (end, q, s) =
          after_round fuel tx (send_round tx m) ok (omega (arith, ap at_hand_count e))
            (send_loop-Ends fuel) in
        (end, send_loop-turn fuel tx e refl ∙ q, s)
  ]
    where
      not_empty : (d : Bytes) → 0 < length d → is_empty d ≡ false
      not_empty [] h = absurd (omega arith)
      not_empty (x ∷ d) h = refl

  pub send_data-Ends : (tx : Tx) → Sending msgs wire tx → Ends msgs wire (send_data tx)
  unfolding send_data
  send_data-Ends tx s =
      send_loop-Ends (suc (suc (length tx.tx_msg_list))) tx s (omega (arith, one tx.s_msg))
    where
      one : (o : Option SerializedMsg) → at_hand_count o ≤ 1
      one none = omega arith
      one (some m) = omega arith
