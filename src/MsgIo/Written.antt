-- ===== src/MsgIo/Written.antt =====
-- handleTx of src/MsgIo.cpp: the write, the trackers, and the move of the buffer.
use objxp.Common.{
  ℕ, zero, suc, ◌+◌, ◌-◌, ◌≤◌, ◌≡◌, refl, sym, ap, ◌∙◌, inl, inr, subst, true, ◌&&◌, List, [], ◌∷◌,
  ◌++◌, Option, some, arith, Bytes, length, length-drop, take, drop, drop-drop, drop_all,
  append-nil, is_empty, ltb, ◌==◌, Bool-cases,
}
use objxp.MsgIo.{fragment_threshold, data_copy_threshold}
use objxp.MsgIo.Tx.{
  SerializedMsg, TxTracker, Tx, tx_fifo_room, tx_copy_move_size, pop_trackers, advance, tidy,
  idle_tx, handle_tx, written,
}
use objxp.MsgIo.Carries.{Carries, Carries-written}
use objxp.MsgIo.Sending.{lens, Buffer, pending, CarriesTx, Sending, send_data-Ends}

-- What is left of the trackers.
pub record Popped (head msg_head : ℕ) (ts : List TxTracker) (r : ℕ × List TxTracker × List Bytes)
    : Type 0 where
  pub same : r.0 + lens r.1 ≡ msg_head + lens ts
  pub behind : r.0 ≤ head
  pub all : head ≡ msg_head + lens ts → r.1 ≡ []

pop_trackers-Popped :
    (head msg_head : ℕ) (ts : List TxTracker) (sent : List Bytes)
    → msg_head ≤ head
    → Popped head msg_head ts (pop_trackers head msg_head ts sent)
unfolding pop_trackers
pop_trackers-Popped head msg_head [] sent h = record { same = refl; behind = h; all = λ e. refl }
pop_trackers-Popped head msg_head (t ∷ ts) sent h =
    elim (Bool-cases (ltb head (msg_head + t.len))) [
      | inl e ↦
          let r : (msg_head, t ∷ ts, sent) ≡ pop_trackers head msg_head (t ∷ ts) sent = rw e in
          subst (Popped head msg_head (t ∷ ts)) r
            (record { same = refl; behind = h; all = λ q. absurd (ground arith) })
      | inr e ↦
          let p =
            pop_trackers-Popped head (msg_head + t.len) ts (sent ++ (t.id ∷ [])) (ground arith) in
          let r : pop_trackers head (msg_head + t.len) ts (sent ++ (t.id ∷ []))
              ≡ pop_trackers head msg_head (t ∷ ts) sent =
            rw e in
          subst (Popped head msg_head (t ∷ ts)) r (record {
            same = p.same ∙ omega arith;
            behind = p.behind;
            all = λ q. p.all (q ∙ omega arith);
          })
    ]

pub idle_tx-Buffer : (tx : Tx) → Buffer tx → Buffer (idle_tx tx)
idle_tx-Buffer tx b = record {
  heads = b.heads;
  ends = b.ends;
  total = b.total;
  room = b.room;
  asked = λ h. ground (arith, b.asked h);
}

-- The buffer is well formed and carries the same bytes of the same messages.
pub record Tidied (tx tx' : Tx) : Type 0 where
  pub buffer : Buffer tx'
  pub same_pending : pending tx' ≡ pending tx
  pub same_msg : tx'.s_msg ≡ tx.s_msg
  pub same_pos : tx'.s_msg_tx_pos ≡ tx.s_msg_tx_pos
  pub same_list : tx'.tx_msg_list ≡ tx.tx_msg_list

tidy-emptied :
    (tx : Tx)
    → Buffer tx
    → tx.tx_head ≡ length tx.tx_fifo
    → tx.tx_trackers ≡ []
    → Tidied tx (record tx { tx_fifo = []; tx_head = 0; tx_msg_head = 0 })
tidy-emptied tx b e none_left = record {
  buffer = record {
    heads = omega arith;
    ends = omega arith;
    total = omega (arith, ap lens none_left);
    room = omega arith;
    asked = λ h. absurd (omega arith);
  };
  same_pending = sym (drop_all tx.tx_head tx.tx_fifo (omega arith));
  same_msg = refl;
  same_pos = refl;
  same_list = refl;
}

tidy-moved :
    (tx : Tx)
    → Buffer tx
    → Tidied tx (record tx {
      tx_fifo = drop tx.tx_msg_head tx.tx_fifo;
      tx_head = tx.tx_head - tx.tx_msg_head;
      tx_msg_head = 0;
    })
tidy-moved tx b =
    let len = length-drop tx.tx_msg_head tx.tx_fifo in
    let back : tx.tx_msg_head + (tx.tx_head - tx.tx_msg_head) ≡ tx.tx_head =
      omega (arith, b.heads) in
    record {
      buffer = record {
        heads = omega arith;
        ends = omega (arith, len, b.ends, b.heads);
        total = omega (arith, len, b.total);
        room = omega (arith, len, b.room);
        asked = λ h. b.asked (omega (arith, len, b.heads));
      };
      same_pending =
          drop-drop (tx.tx_head - tx.tx_msg_head) tx.tx_msg_head tx.tx_fifo
          ∙ ap (λ (n : ℕ). drop n tx.tx_fifo) back;
      same_msg = refl;
      same_pos = refl;
      same_list = refl;
    }

tidy-Tidied :
    (tx : Tx)
    → Buffer tx
    → (tx.tx_head ≡ length tx.tx_fifo → tx.tx_trackers ≡ [])
    → (tx' : Tx) × (tidy tx ≡ some tx') × Tidied tx tx'
unfolding tidy
tidy-Tidied tx b none_left = elim (Bool-cases (tx.tx_head == length tx.tx_fifo)) [
  | inl e ↦
      let all : tx.tx_head ≡ length tx.tx_fifo = ground arith in
      let empty : is_empty tx.tx_trackers ≡ true = ap is_empty (none_left all) in
      let met : (tx.tx_msg_head == tx.tx_head) ≡ true =
        let z = ap lens (none_left all) in let t = b.total in ground arith in
      (
        record tx { tx_fifo = []; tx_head = 0; tx_msg_head = 0 },
        rw (e, empty, met),
        tidy-emptied tx b all (none_left all),
      )
  | inr e ↦
      elim (Bool-cases (
        tx.tx_msg_head == 0
        && ltb (tx_copy_move_size tx) data_copy_threshold
        && ltb (tx_fifo_room tx) fragment_threshold)) [
          | inl f ↦ (
            record tx {
              tx_fifo = drop tx.tx_msg_head tx.tx_fifo;
              tx_head = tx.tx_head - tx.tx_msg_head;
              tx_msg_head = 0;
            },
            rw (e, f),
            tidy-moved tx b,
          )
          | inr f ↦ (
            tx,
            rw (e, f),
            record {
              buffer = b;
              same_pending = refl;
              same_msg = refl;
              same_pos = refl;
              same_list = refl;
            },
          )
        ]
]

-- The write itself.
advance-Buffer :
    (tx : Tx) (n : ℕ)
    → Buffer tx
    → tx.tx_head + n ≤ length tx.tx_fifo
    → Buffer (advance tx n).0
      × ((advance tx n).0.tx_head ≡ length tx.tx_fifo → (advance tx n).0.tx_trackers ≡ [])
advance-Buffer tx n b h =
    let p =
      pop_trackers-Popped (tx.tx_head + n) tx.tx_msg_head tx.tx_trackers []
        (omega (arith, b.heads)) in
    (
      record {
        heads = p.behind;
        ends = h;
        total = p.same ∙ b.total;
        room = b.room;
        asked = λ k. b.asked (omega arith);
      },
      λ e. p.all (e ∙ sym b.total),
    )

module _ {msgs : List SerializedMsg} {wire : Bytes} where
  -- handleTx, where the socket takes some of the bytes that it is given, returns.
  pub handle_tx-written :
      (tx : Tx) (n : ℕ)
      → Sending msgs wire tx
      → tx.tx_head + n ≤ length tx.tx_fifo
      → (tx' : Tx) × (sent : List Bytes) × (handle_tx tx (written n) ≡ some (tx', sent))
        × Sending msgs (wire ++ take n (pending tx)) tx'
  unfolding handle_tx
  handle_tx-written tx zero (b, c) h = (
    idle_tx tx,
    [],
    refl,
    (idle_tx-Buffer tx b, subst (λ w. CarriesTx msgs w tx) (sym (append-nil wire)) c),
  )
  handle_tx-written tx (suc n) (b, c) h =
      let (b', none_left) = advance-Buffer tx (suc n) b h in
      let (tx', tidied, t) = tidy-Tidied (advance tx (suc n)).0 b' none_left in
      let c' : CarriesTx msgs (wire ++ take (suc n) (pending tx)) tx' =
        subst
          (λ (u : Bytes × Option SerializedMsg × ℕ × List SerializedMsg).
            Carries msgs (wire ++ take (suc n) (pending tx)) u.0 u.1 u.2 u.3)
          (rw (
            t.same_pending,
            t.same_msg,
            t.same_pos,
            t.same_list,
            sym (drop-drop (suc n) tx.tx_head tx.tx_fifo),
          ))
          (Carries-written (suc n) c) in
      let (end, out, s) = send_data-Ends tx' (t.buffer, c') in
      (idle_tx end, (advance tx (suc n)).1, rw (tidied, out), (idle_tx-Buffer end s.0, s.1))
