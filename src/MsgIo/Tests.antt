-- ===== src/MsgIo/Tests.antt =====
-- Tests of the message layer of src/MsgIo.cpp on concrete frames.
use objxp.Common.{
  ap, length, bytes_eq, inl, inr, Bytes, refl, true, some, map, ℕ, ◌≡◌, false, List, [], ◌∷◌, ◌++◌,
  arith, All, codes,
}
use objxp.MsgIo.{Frame, IsFrame}
use objxp.MsgIo.Rx.{init_rx, rx_run}
use objxp.MsgIo.Progress.{encode, Progress}
use objxp.MsgIo.Put.{PutObjectMsg, init_put, put_run, make_serialized_msg, handle_put_object_msg}
use objxp.MsgIo.Transaction.{
  XElement, x_put, x_del, has_path, element_text, transaction_text, parse_transaction, digits,
}
use objxp.MsgIo.ElementText.{IsElement, Fresh}
use objxp.MsgIo.Elements.{parse_transaction-transaction_text}
use objxp.MsgIo.PutInfo.{IsPut}
use objxp.MsgIo.Puts.{state_of}
use objxp.MsgIo.PutRun.{put_payload, put_run-join_frags, handle_put_object_msg-no_data}
use objxp.MsgIo.Tx.{
  Tx, init_tx, TxEvent, enqueue, writable, tx_run, enq_msg, handle_tx, tidy, send_data, send_loop,
  send_round, send_part, send_msg, pop_trackers,
}
use objxp.MsgIo.Carries.{IsMsg, payload, join_frags}
use objxp.MsgIo.Sending.{Sending}
use objxp.MsgIo.Send.{enqueued, tx_run-Sending, rx_run-tx_run}
use objxp.MsgIo.PutWire.{IntSize, put_run-tx_run}
use objxp.MsgIo.Receive.{rx_run-in_order, rx_run-delivers}

abbrev hello : Frame
hello = record { msg_type = 2; flags = 1; data_bytes = codes "hi" }

abbrev empty_frame : Frame
empty_frame = record { msg_type = 1; flags = 0; data_bytes = [] }

abbrev frames : List Frame
frames = hello ∷ empty_frame ∷ []

frames-valid : All IsFrame frames
frames-valid = (
  record { byte_type = omega arith; byte_flags = omega arith; fits = omega arith },
  (record { byte_type = omega arith; byte_flags = omega arith; fits = omega arith }, tt),
)

rx_run-in_order_example :
    (let end = rx_run init_rx (2 ∷ 5 ∷ []) (encode frames) [] in Progress [] frames end.1 end.0)
rx_run-in_order_example = rx_run-in_order (2 ∷ 5 ∷ []) frames frames-valid

abbrev calls : List ℕ
calls = 2 ∷ 0 ∷ 4 ∷ 0 ∷ 0 ∷ 0 ∷ 1 ∷ 1 ∷ 1 ∷ 1 ∷ 1 ∷ 1 ∷ []

rx_run-delivers_example :
    (let end = rx_run init_rx calls (encode frames) [] in
      (end.0 ≡ record { rx = init_rx; received = frames; disconnected = false }) × (end.1 ≡ []))
rx_run-delivers_example = rx_run-delivers calls frames frames-valid (omega arith)

-- A message and two writes that take all of it.
abbrev events : List TxEvent
events =
    enqueue (record { msg_type = 50; dont_frag = true; s_data = codes "/a" })
    ∷ writable 3
    ∷ writable 9
    ∷ []

events-valid : All IsMsg (enqueued events)
events-valid =
    (record { byte_type = omega arith; some_data = omega arith; int_size = omega arith }, tt)

tx_run-Sending_example :
    (tx : Tx) × (wire : Bytes) × (tx_run events init_tx [] ≡ some (tx, wire))
    × Sending (enqueued events) wire tx
tx_run-Sending_example = tx_run-Sending events events-valid

abbrev sent_bytes : Bytes
sent_bytes = b'Y' ∷ 50 ∷ 0 ∷ 0 ∷ 2 ∷ codes "/a"

sends : tx_run events init_tx [] ≡ some (init_tx, sent_bytes)
unfolding tx_run enq_msg handle_tx tidy send_data send_loop send_round send_part send_msg
    pop_trackers
sends = refl

rx_run-tx_run_example :
    join_frags [] (rx_run init_rx calls sent_bytes []).0.received
    ≡ (map payload (enqueued events), [])
rx_run-tx_run_example =
    rx_run-tx_run events calls init_tx sent_bytes events-valid sends refl refl refl (omega arith)

-- A put message in two fragments.
abbrev tv : PutObjectMsg
tv = record {
  path = codes "/tv";
  type_name = codes "Int";
  opt = codes "dod";
  data_text = codes "42";
}

abbrev fragments : List Frame
fragments =
    record { msg_type = 49; flags = 0x80; data_bytes = codes "/tv,In" }
    ∷ record { msg_type = 49; flags = 0; data_bytes = codes "t,dod=42" }
    ∷ []

tv-valid : IsPut tv
tv-valid = record {
  path_comma = ground arith;
  path_eq = ground arith;
  type_comma = ground arith;
  type_eq = ground arith;
  opt_eq = ground arith;
  some_data = omega arith;
  short = omega arith;
}

joined : join_frags [] fragments ≡ (map put_payload (tv ∷ []), [])
unfolding join_frags make_serialized_msg
joined = refl

fragments_read : put_run (state_of []) fragments ≡ some (init_put, tv ∷ [])
fragments_read =
    put_run-join_frags fragments [] (tv ∷ []) (inr refl, (inl refl, tt)) (tv-valid, tt) joined

-- The message in the queue, and a write that takes all of it.
abbrev put_events : List TxEvent
put_events = enqueue (make_serialized_msg tv) ∷ writable 100 ∷ []

abbrev put_bytes : Bytes
put_bytes = b'Y' ∷ 49 ∷ 0 ∷ 0 ∷ 14 ∷ codes "/tv,Int,dod=42"

put_sends : tx_run put_events init_tx [] ≡ some (init_tx, put_bytes)
unfolding tx_run enq_msg handle_tx tidy send_data send_loop send_round send_part send_msg
    pop_trackers make_serialized_msg
put_sends = refl

abbrev put_calls : List ℕ
put_calls = calls ++ calls

tv-IntSize : IntSize tv
unfolding make_serialized_msg
tv-IntSize = omega arith

put_run-tx_run_example :
    put_run init_put (rx_run init_rx put_calls put_bytes []).0.received ≡ some (init_put, tv ∷ [])
put_run-tx_run_example =
    put_run-tx_run put_events (tv ∷ []) put_calls init_tx put_bytes refl (tv-valid, tt)
      (tv-IntSize, tt) put_sends refl refl refl (omega arith)

abbrev no_text : PutObjectMsg
no_text = record { path = codes "/tv"; type_name = codes "Str"; opt = []; data_text = [] }

handle_put_object_msg-no_data_example :
    handle_put_object_msg init_put false (make_serialized_msg no_text).s_data
    ≡ some (record { obj_info = codes "/tv,Str="; ss = [] }, [])
handle_put_object_msg-no_data_example =
    handle_put_object_msg-no_data no_text refl (ground arith) (ground arith) tt

-- A transaction of a put and a delete.
abbrev elements : List XElement
elements = x_put (codes "/tv") (codes "Int") (codes "dod") (codes "4,2}") ∷ x_del (codes "/a") ∷ []

elements-valid : All IsElement elements
elements-valid = ((ground arith, ground arith, inl refl, omega arith), (ground arith, tt))

elements-Fresh : Fresh [] elements
unfolding has_path bytes_eq
elements-Fresh = (refl, (refl, tt))

elements_text : transaction_text elements ≡ codes "{put,4,/tv,Int,dod=4,2}}{del,/a}"
unfolding transaction_text element_text digits
elements_text = refl

parse_transaction-transaction_text_example :
    parse_transaction (transaction_text elements) ≡ some elements
parse_transaction-transaction_text_example =
    parse_transaction-transaction_text elements elements-valid elements-Fresh
      (omega (arith, ap length elements_text))
