-- ===== src/MsgIo/PutWire.antt =====
-- Put messages of src/MsgIo.cpp from the queue of a sender to handlePutObject of a receiver.
use objxp.Common.{
  ℕ, ◌^◌, ◌<◌, ◌≤◌, ◌≡◌, refl, sym, ap, ◌∙◌, subst, List, [], ◌∷◌, map, none, some, arith, Bytes,
  All, length, length-append,
}
use objxp.MsgIo.Rx.{init_rx, rx_run}
use objxp.MsgIo.Tx.{SerializedMsg, Tx, init_tx, TxEvent, tx_run}
use objxp.MsgIo.Put.{PutObjectMsg, info_text, make_serialized_msg, init_put, put_run, split_eq}
use objxp.MsgIo.PutInfo.{IsPut}
use objxp.MsgIo.Puts.{state_of}
use objxp.MsgIo.Carries.{IsMsg, payload}
use objxp.MsgIo.Sending.{pending}
use objxp.MsgIo.Send.{enqueued, tx_run-received}
use objxp.MsgIo.PutRun.{put_payload, put_run-join_frags}

-- An int holds the length of a serialized message.
abbrev pub IntSize : PutObjectMsg → Type 0
IntSize m = length (make_serialized_msg m).s_data < 2 ^ 31

make_serialized_msg-IsMsg :
    (ms : List PutObjectMsg)
    → All IsPut ms
    → All IntSize ms
    → All IsMsg (map make_serialized_msg ms)
unfolding make_serialized_msg
make_serialized_msg-IsMsg [] h k = tt
make_serialized_msg-IsMsg (m ∷ ms) (h, hs) (k, ks) = (
  record {
    byte_type = omega arith;
    some_data = omega (arith, length-append (info_text m) m.data_text, h.some_data);
    int_size = k;
  },
  make_serialized_msg-IsMsg ms hs ks,
)

payloads : (ms : List PutObjectMsg) → map payload (map make_serialized_msg ms) ≡ map put_payload ms
payloads [] = refl
payloads (m ∷ ms) = ap (λ l. put_payload m ∷ l) (payloads ms)

-- A sender is given put messages, and nothing of them is left with it after some events, whatever
-- the sizes of the writes. A receiver reads what was written, in any pieces and with as many calls
-- as there are bytes, and gives each frame to handlePutObjectMsg. Then exactly these messages are
-- passed on, in order, with their paths, type names, options and data, and the receiver is in its
-- first state. The messages have data, no comma in path and type name, no '=' in path, type name
-- and option, the text before the data is shorter than npos, and the text with the data is shorter
-- than 2^31 bytes.
pub put_run-tx_run :
    (es : List TxEvent) (ms : List PutObjectMsg) (ns : List ℕ) (tx : Tx) (wire : Bytes)
    → enqueued es ≡ map make_serialized_msg ms
    → All IsPut ms
    → All IntSize ms
    → tx_run es init_tx [] ≡ some (tx, wire)
    → pending tx ≡ []
    → tx.s_msg ≡ none
    → tx.tx_msg_list ≡ []
    → length wire ≤ length ns
    → put_run init_put (rx_run init_rx ns wire []).0.received ≡ some (init_put, ms)
put_run-tx_run es ms ns tx wire queued h sizes run none_pending no_msg empty k =
    let valid : All IsMsg (enqueued es) =
      subst (All IsMsg) (sym queued) (make_serialized_msg-IsMsg ms h sizes) in
    let (joined, flagged) = tx_run-received es ns tx wire valid run none_pending no_msg empty k in
    let frames = (rx_run init_rx ns wire []).0.received in
    let start : state_of [] ≡ init_put = (unfold split_eq in refl) in
    ap (λ s. put_run s frames) (sym start)
    ∙ put_run-join_frags frames [] ms flagged h (
        joined
        ∙ ap (λ (l : List SerializedMsg). (map payload l, [])) queued
        ∙ ap (λ (l : List (ℕ × Bytes)). (l, [])) (payloads ms))
