-- ===== src/MsgIo/Send.antt =====
-- A sender of src/MsgIo.cpp over any events, and a receiver that reads what it wrote.
use mathlib.Core.Option.{some-injective}
use objxp.Common.{
  map-append, ℕ, ◌≤◌, ◌≡◌, refl, sym, ap, ◌∙◌, subst, List, [], ◌∷◌, ◌++◌, map, Option, none, some,
  arith, Bytes, All, All-append, length, take, append-nil, append_assoc,
}
use objxp.MsgIo.{Frame, IsFrame}
use objxp.MsgIo.Progress.{encode}
use objxp.MsgIo.Rx.{init_rx, RxResult, rx_run}
use objxp.MsgIo.Receive.{rx_run-delivers}
use objxp.MsgIo.Tx.{
  SerializedMsg, Tx, init_tx, enq_msg, handle_tx, write_error, TxEvent, enqueue, writable,
  write_fails, taken, tx_run,
}
use objxp.MsgIo.Carries.{IsFlag, IsMsg, payload, at_hand, join_frags, Carries}
use objxp.MsgIo.Sending.{pending, CarriesTx, Sending, Ends, send_data-Ends}
use objxp.MsgIo.Written.{idle_tx-Buffer, handle_tx-written}

-- The messages put in the queue, in order.
abbrev pub enqueued : List TxEvent → List SerializedMsg
enqueued [] = []
enqueued (enqueue m ∷ es) = m ∷ enqueued es
enqueued (writable n ∷ es) = enqueued es
enqueued (write_fails ∷ es) = enqueued es

enq_msg-Sending :
    (msgs : List SerializedMsg) (wire : Bytes) (tx : Tx) (m : SerializedMsg)
    → Sending msgs wire tx
    → IsMsg m
    → Ends (msgs ++ (m ∷ [])) wire (enq_msg tx m)
unfolding enq_msg
enq_msg-Sending msgs wire tx m (b, c) h =
    send_data-Ends (record tx { tx_msg_list = tx.tx_msg_list ++ (m ∷ []) })
      (
        record { heads = b.heads; ends = b.ends; total = b.total; room = b.room; asked = b.asked },
        record {
          frames = c.frames;
          stream = c.stream;
          valid = c.valid;
          flagged = c.flagged;
          done = c.done;
          part = c.part;
          joined = c.joined;
          account =
              ap (λ t. c.done ++ t)
                (ap (map payload) (sym (append_assoc (at_hand tx.s_msg) tx.tx_msg_list (m ∷ [])))
                  ∙ map-append payload (at_hand tx.s_msg ++ tx.tx_msg_list) (m ∷ []))
              ∙ sym (
                  append_assoc c.done (map payload (at_hand tx.s_msg ++ tx.tx_msg_list))
                    (payload m ∷ []))
              ∙ ap (λ t. t ++ (payload m ∷ [])) c.account
              ∙ sym (map-append payload msgs (m ∷ []));
          partial = c.partial;
          queued = All-append IsMsg tx.tx_msg_list (m ∷ []) c.queued (h, tt);
        },
      )

handle_tx-fails :
    (msgs : List SerializedMsg) (wire : Bytes) (tx : Tx)
    → Sending msgs wire tx
    → (tx' : Tx) × (sent : List Bytes) × (handle_tx tx write_error ≡ some (tx', sent))
      × Sending msgs wire tx'
unfolding handle_tx
handle_tx-fails msgs wire tx (b, c) = (_, [], refl, (idle_tx-Buffer tx b, c))

abbrev pub Runs : List SerializedMsg → Option (Tx × Bytes) → Type 0
Runs msgs r = (tx : Tx) × (wire : Bytes) × (r ≡ some (tx, wire)) × Sending msgs wire tx

tx_run-Runs :
    (es : List TxEvent) (msgs : List SerializedMsg) (tx : Tx) (wire : Bytes)
    → All IsMsg (enqueued es)
    → Sending msgs wire tx
    → Runs (msgs ++ enqueued es) (tx_run es tx wire)
unfolding tx_run
tx_run-Runs [] msgs tx wire h s =
    (tx, wire, refl, subst (λ t. Sending t wire tx) (sym (append-nil msgs)) s)
tx_run-Runs (enqueue m ∷ es) msgs tx wire (hm, hs) s =
    let (tx', e, s') = enq_msg-Sending msgs wire tx m s hm in
    let (end, w, out, fin) = tx_run-Runs es (msgs ++ (m ∷ [])) tx' wire hs s' in
    (end, w, rw e out, subst (λ t. Sending t w end) (append_assoc msgs (m ∷ []) (enqueued es)) fin)
tx_run-Runs (writable n ∷ es) msgs tx wire h s =
    let k = taken tx n in
    let (tx', sent, e, s') = handle_tx-written tx k s (omega (arith, s.0.ends)) in
    let (end, w, out, fin) = tx_run-Runs es msgs tx' (wire ++ take k (pending tx)) h s' in
    (end, w, rw e out, fin)
tx_run-Runs (write_fails ∷ es) msgs tx wire h s =
    let (tx', sent, e, s') = handle_tx-fails msgs wire tx s in
    let (end, w, out, fin) = tx_run-Runs es msgs tx' wire h s' in (end, w, rw e out, fin)

init_tx-Sending : Sending [] [] init_tx
init_tx-Sending = (
  record {
    heads = omega arith;
    ends = omega arith;
    total = omega arith;
    room = omega arith;
    asked = λ h. absurd (omega arith);
  },
  record {
    frames = [];
    stream = refl;
    valid = tt;
    flagged = tt;
    done = [];
    part = [];
    joined = unfold join_frags in refl;
    account = refl;
    partial = refl;
    queued = tt;
  },
)

-- Where only messages that are not empty, shorter than 2^31 bytes and with a byte as their type are
-- put in the queue, no assertion of a sender fails and no length is negative, whatever the sizes of
-- the writes. After any events the trackers account for the buffer, which does not overrun, the
-- session waits for the socket while bytes are left, and the bytes written with those left in the
-- buffer are frames whose data, joined at the fragments, are the queued messages in order, up to
-- the part of the message at hand and those still in the queue.
pub tx_run-Sending :
    (es : List TxEvent)
    → All IsMsg (enqueued es)
    → (tx : Tx) × (wire : Bytes) × (tx_run es init_tx [] ≡ some (tx, wire))
      × Sending (enqueued es) wire tx
tx_run-Sending es h = tx_run-Runs es [] init_tx [] h init_tx-Sending

rx_run-received :
    (wire : Bytes) (ns : List ℕ) (fs : List Frame)
    → wire ≡ encode fs
    → All IsFrame fs
    → length wire ≤ length ns
    → (rx_run init_rx ns wire []).0.received ≡ fs
rx_run-received wire ns fs e h k =
    let r = rx_run-delivers ns fs h (omega (arith, ap length e)) in
    ap (λ (w : Bytes). (rx_run init_rx ns w []).0.received) e
    ∙ ap (λ (t : RxResult). t.received) r.0

joined-payload :
    (msgs : List SerializedMsg) (wire : Bytes) (ns : List ℕ) (pos : ℕ)
    → Carries msgs wire [] none pos []
    → length wire ≤ length ns
    → (join_frags [] (rx_run init_rx ns wire []).0.received ≡ (map payload msgs, []))
      × All IsFlag (rx_run init_rx ns wire []).0.received
joined-payload msgs wire ns pos c k =
    let got = rx_run-received wire ns c.frames (sym (append-nil wire) ∙ c.stream) c.valid k in
    (
      ap (join_frags []) got ∙ c.joined ∙ rw (sym c.account, append-nil c.done, c.partial),
      subst (All IsFlag) (sym got) c.flagged,
    )

-- What is received, with the flags of its frames.
pub tx_run-received :
    (es : List TxEvent) (ns : List ℕ) (tx : Tx) (wire : Bytes)
    → All IsMsg (enqueued es)
    → tx_run es init_tx [] ≡ some (tx, wire)
    → pending tx ≡ []
    → tx.s_msg ≡ none
    → tx.tx_msg_list ≡ []
    → length wire ≤ length ns
    → (join_frags [] (rx_run init_rx ns wire []).0.received ≡ (map payload (enqueued es), []))
      × All IsFlag (rx_run init_rx ns wire []).0.received
tx_run-received es ns tx wire h e none_pending no_msg empty k =
    let (tx', wire', e', (_, c)) = tx_run-Sending es h in
    let same = some-injective (tx', wire') (tx, wire) (sym e' ∙ e) in
    let c' : CarriesTx (enqueued es) wire tx =
      subst (λ (t : Tx × Bytes). CarriesTx (enqueued es) t.1 t.0) same c in
    let c'' : Carries (enqueued es) wire [] none tx.s_msg_tx_pos [] =
      subst
        (λ (t : Bytes × Option SerializedMsg × List SerializedMsg).
          Carries (enqueued es) wire t.0 t.1 tx.s_msg_tx_pos t.2)
        (rw (none_pending, no_msg, empty)) c' in
    joined-payload (enqueued es) wire ns tx.s_msg_tx_pos c'' k

-- Where a sender is given messages that are not empty, shorter than 2^31 bytes and with a byte as
-- their type, and nothing of them is left with it after some events, a receiver that reads what was
-- written, in any pieces and with as many calls as there are bytes, is handed frames whose data,
-- joined at the fragments, are those messages in order.
pub rx_run-tx_run :
    (es : List TxEvent) (ns : List ℕ) (tx : Tx) (wire : Bytes)
    → All IsMsg (enqueued es)
    → tx_run es init_tx [] ≡ some (tx, wire)
    → pending tx ≡ []
    → tx.s_msg ≡ none
    → tx.tx_msg_list ≡ []
    → length wire ≤ length ns
    → join_frags [] (rx_run init_rx ns wire []).0.received ≡ (map payload (enqueued es), [])
rx_run-tx_run es ns tx wire h e none_pending no_msg empty k =
    (tx_run-received es ns tx wire h e none_pending no_msg empty k).0
