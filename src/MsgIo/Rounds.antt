-- ===== src/MsgIo/Rounds.antt =====
-- What a round of sendData of src/MsgIo.cpp leaves: all that is left of a message in one frame, a
-- fragment that fills the buffer, or no change.
use objxp.Common.{
  ℕ, ◌+◌, ◌-◌, ◌^◌, ltb, ap, some, Bool, ◌≤◌, ◌<◌, ◌≡◌, ◌∙◌, true, false, not, ◌&&◌, [], ◌∷◌, ◌++◌,
  ◌⊎◌, none, arith, length, length-take, length-drop, take, take_all, drop, leb, min,
}
use objxp.MsgIo.{Frame, encode_frame, hdr_len, fragment_threshold}
use objxp.MsgIo.Tx.{
  SerializedMsg, Tx, tx_fifo_room, ok, send_msg, send_part, int_data_len, int_left, send_round,
  msg_flag_none, msg_flag_more_frag,
}

-- A frame at the end of the buffer.
abbrev pub push : Tx → Frame → Tx
push tx f = record tx {
  tx_fifo = tx.tx_fifo ++ encode_frame f;
  tx_trackers = tx.tx_trackers ++ (record { id = []; len = hdr_len + length f.data_bytes } ∷ []);
  tx_requested = true;
}

-- The frame of what is left of a message at a position, and the one of its next bytes.
abbrev pub last_frame : SerializedMsg → ℕ → Frame
last_frame m pos = record {
  msg_type = m.msg_type;
  flags = msg_flag_none;
  data_bytes = drop pos m.s_data;
}

abbrev pub fragment : SerializedMsg → ℕ → ℕ → Frame
fragment m pos n = record {
  msg_type = m.msg_type;
  flags = msg_flag_more_frag;
  data_bytes = take n (drop pos m.s_data);
}

send_msg-fits :
    (tx : Tx) (f : Frame)
    → 0 < length f.data_bytes
    → length f.data_bytes ≤ tx_fifo_room tx
    → send_msg tx f [] ≡ (push tx f, ok)
unfolding send_msg
send_msg-fits tx f h k = ground arith

send_part-last :
    (tx : Tx) (m : SerializedMsg)
    → tx.s_msg_tx_pos < length m.s_data
    → length m.s_data - tx.s_msg_tx_pos ≤ tx_fifo_room tx
    → send_part tx m (length m.s_data) (length m.s_data - tx.s_msg_tx_pos)
      ≡ (record (push tx (last_frame m tx.s_msg_tx_pos)) { s_msg = none; s_msg_tx_pos = 0 }, true)
unfolding send_part
send_part-last tx m h k =
    let len = length m.s_data - tx.s_msg_tx_pos in
    let rest = drop tx.s_msg_tx_pos m.s_data in
    let all : leb len (tx_fifo_room tx) ≡ true = ground arith in
    let least : min (tx_fifo_room tx) len ≡ len = omega arith in
    let whole : take len rest ≡ rest =
      take_all len rest (omega (arith, length-drop tx.s_msg_tx_pos m.s_data)) in
    let end : leb (length m.s_data) (tx.s_msg_tx_pos + len) ≡ true = ground arith in
    let fits =
      send_msg-fits tx (last_frame m tx.s_msg_tx_pos)
        (omega (arith, length-drop tx.s_msg_tx_pos m.s_data))
        (omega (arith, length-drop tx.s_msg_tx_pos m.s_data)) in
    rw (all, least, whole, end, fits)

send_part-fragment :
    (tx : Tx) (m : SerializedMsg)
    → tx.s_msg_tx_pos < length m.s_data
    → tx_fifo_room tx < length m.s_data - tx.s_msg_tx_pos
    → m.dont_frag ≡ false
    → fragment_threshold ≤ tx_fifo_room tx
    → send_part tx m (length m.s_data) (length m.s_data - tx.s_msg_tx_pos) ≡ (
      record (push tx (fragment m tx.s_msg_tx_pos (tx_fifo_room tx))) {
        s_msg_tx_pos = tx.s_msg_tx_pos + tx_fifo_room tx;
      },
      false,
    )
unfolding send_part
send_part-fragment tx m h k d t =
    let room = tx_fifo_room tx in
    let rest = drop tx.s_msg_tx_pos m.s_data in
    let len = length m.s_data - tx.s_msg_tx_pos in
    let part : leb len room ≡ false = ground arith in
    let least : min room len ≡ room = omega arith in
    let enough : leb fragment_threshold room ≡ true = ground arith in
    let end : leb (length m.s_data) (tx.s_msg_tx_pos + room) ≡ false = ground arith in
    let long : length (take room rest) ≡ room =
      length-take room rest ∙ omega (arith, length-drop tx.s_msg_tx_pos m.s_data) in
    let fits =
      send_msg-fits tx (fragment m tx.s_msg_tx_pos (tx_fifo_room tx)) (omega (arith, long))
        (omega (arith, long)) in
    rw (part, least, d, enough, end, fits)

send_part-waits :
    (tx : Tx) (m : SerializedMsg)
    → tx_fifo_room tx < length m.s_data - tx.s_msg_tx_pos
    → (m.dont_frag ≡ true) ⊎ (tx_fifo_room tx < fragment_threshold)
    → send_part tx m (length m.s_data) (length m.s_data - tx.s_msg_tx_pos) ≡ (tx, false)
unfolding send_part
send_part-waits tx m k t =
    let part : leb (length m.s_data - tx.s_msg_tx_pos) (tx_fifo_room tx) ≡ false = ground arith in
    let stop : (not m.dont_frag && leb fragment_threshold (tx_fifo_room tx)) ≡ false =
      ground arith in
    rw (part, stop)

-- A message that an int can hold is left with what is behind the position.
send_round-left :
    (tx : Tx) (m : SerializedMsg)
    → tx.s_msg_tx_pos < length m.s_data
    → length m.s_data < 2 ^ 31
    → send_round tx m ≡ some (send_part tx m (length m.s_data) (length m.s_data - tx.s_msg_tx_pos))
unfolding send_round
send_round-left tx m h k =
    let len : int_data_len m ≡ length m.s_data = omega arith in
    let left : int_left tx m ≡ length m.s_data - tx.s_msg_tx_pos = omega arith in
    let fits : ltb (length m.s_data - tx.s_msg_tx_pos) (2 ^ 31) ≡ true = ground arith in
    rw (left, fits, len)

pub send_round-last :
    (tx : Tx) (m : SerializedMsg)
    → tx.s_msg_tx_pos < length m.s_data
    → length m.s_data < 2 ^ 31
    → length m.s_data - tx.s_msg_tx_pos ≤ tx_fifo_room tx
    → send_round tx m
      ≡ some
          (record (push tx (last_frame m tx.s_msg_tx_pos)) { s_msg = none; s_msg_tx_pos = 0 }, true)
send_round-last tx m h i k =
    send_round-left tx m h i ∙ ap (λ (r : Tx × Bool). some r) (send_part-last tx m h k)

pub send_round-fragment :
    (tx : Tx) (m : SerializedMsg)
    → tx.s_msg_tx_pos < length m.s_data
    → length m.s_data < 2 ^ 31
    → tx_fifo_room tx < length m.s_data - tx.s_msg_tx_pos
    → m.dont_frag ≡ false
    → fragment_threshold ≤ tx_fifo_room tx
    → send_round tx m
      ≡ some (
        record (push tx (fragment m tx.s_msg_tx_pos (tx_fifo_room tx))) {
          s_msg_tx_pos = tx.s_msg_tx_pos + tx_fifo_room tx;
        },
        false,
      )
send_round-fragment tx m h i k d t =
    send_round-left tx m h i ∙ ap (λ (r : Tx × Bool). some r) (send_part-fragment tx m h k d t)

pub send_round-waits :
    (tx : Tx) (m : SerializedMsg)
    → tx.s_msg_tx_pos < length m.s_data
    → length m.s_data < 2 ^ 31
    → tx_fifo_room tx < length m.s_data - tx.s_msg_tx_pos
    → (m.dont_frag ≡ true) ⊎ (tx_fifo_room tx < fragment_threshold)
    → send_round tx m ≡ some (tx, false)
send_round-waits tx m h i k t =
    send_round-left tx m h i ∙ ap (λ (r : Tx × Bool). some r) (send_part-waits tx m k t)
