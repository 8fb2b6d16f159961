-- ===== src/MsgIo/Tx.antt =====
-- The sending half of MsgIoSession of src/MsgIo.cpp: sendMsg, sendData, handleTx, enqMsg, deqMsg.
-- txFifo_ is its first txTail_ bytes. A message is what its makeSerializedMsg makes of it, and
-- `none` is a failed assertion, or a copy
-- with a negative length.
use objxp.Common.{
  ℕ, zero, suc, ◌+◌, ◌-◌, ◌%◌, ◌^◌, Bool, true, false, not, ◌&&◌, ◌||◌, List, [], ◌∷◌, ◌++◌, Option,
  none, some, Bytes, length, take, drop, is_empty, ltb, leb, ◌==◌, if◌then◌else◌, min, guard, ◌>>=◌,
  ◌>>◌,
}
use objxp.MsgIo.{
  Frame, encode_frame, hdr_len, max_msg_len, fifo_size, fragment_threshold, data_copy_threshold,
}

-- SerializedMsg
pub record SerializedMsg : Type 0 where
  pub msg_type : ℕ
  pub dont_frag : Bool
  pub s_data : Bytes

pub record TxTracker : Type 0 where
  pub id : Bytes
  pub len : ℕ

pub record Tx : Type 0 where
  pub tx_fifo : Bytes
  pub tx_head : ℕ
  pub tx_msg_head : ℕ
  pub tx_trackers : List TxTracker
  pub s_msg : Option SerializedMsg
  pub s_msg_tx_pos : ℕ
  pub tx_msg_list : List SerializedMsg
  -- Set by requestTx and reset by idleTx: the session waits for the socket to be writable.
  pub tx_requested : Bool

abbrev pub init_tx : Tx
init_tx = record {
  tx_fifo = [];
  tx_head = 0;
  tx_msg_head = 0;
  tx_trackers = [];
  s_msg = none;
  s_msg_tx_pos = 0;
  tx_msg_list = [];
  tx_requested = false;
}

abbrev pub msg_flag_none : ℕ
msg_flag_none = 0

abbrev pub msg_flag_more_frag : ℕ
msg_flag_more_frag = 0x80

-- What sendMsg returns.
pub data SendResult : Type 0 where
  ok e2big ebusy : SendResult

abbrev pub tx_fifo_room : Tx → ℕ
tx_fifo_room tx = fifo_size - length tx.tx_fifo - hdr_len

abbrev pub tx_copy_move_size : Tx → ℕ
tx_copy_move_size tx = length tx.tx_fifo - tx.tx_msg_head

unfoldable pub send_msg : Tx → Frame → Bytes → Tx × SendResult
send_msg tx f id =
    if ltb max_msg_len (length f.data_bytes)
    then (tx, e2big)
    else if leb (length f.data_bytes + hdr_len) (fifo_size - length tx.tx_fifo)
    then (
      record tx {
        tx_fifo = tx.tx_fifo ++ encode_frame f;
        tx_trackers =
            tx.tx_trackers ++ (record { id = id; len = hdr_len + length f.data_bytes } ∷ []);
        tx_requested = true;
      },
      ok,
    )
    else (tx, ebusy)

-- What a round of sendData does with a message of a size, of which `data_len` bytes are left: the
-- state, and whether the message is sent to its end.
unfoldable pub send_part : Tx → SerializedMsg → ℕ → ℕ → Tx × Bool
send_part tx m size data_len =
    let room = tx_fifo_room tx in
    let tx_len = min room data_len in
    let flags = if leb data_len room then msg_flag_none else msg_flag_more_frag in
    let frame : Frame = record {
      msg_type = m.msg_type;
      flags = flags;
      data_bytes = take tx_len (drop tx.s_msg_tx_pos m.s_data);
    } in
    let sent : Tx = record ((send_msg tx frame []).0) { s_msg_tx_pos = tx.s_msg_tx_pos + tx_len } in
    if leb data_len room || (not m.dont_frag && leb fragment_threshold room)
    then (if leb size (tx.s_msg_tx_pos + tx_len)
        then (record sent { s_msg = none; s_msg_tx_pos = 0 }, true)
        else (sent, false))
    else (tx, false)

-- dataLen() is an int: the low 32 bits of the length, and so is what is left behind the position.
abbrev pub int_data_len : SerializedMsg → ℕ
int_data_len m = length m.s_data % 2 ^ 32

abbrev pub int_left : Tx → SerializedMsg → ℕ
int_left tx m = (int_data_len m + 2 ^ 32 - tx.s_msg_tx_pos) % 2 ^ 32

-- One round of the loop of sendData with a message at hand. Where the int is negative it is copied
-- as a size of nearly 2^64 bytes, which is `none`, unless the room is less than it: the room is
-- FifoSize - txTail_ - HdrLen, down to -HdrLen.
unfoldable pub send_round : Tx → SerializedMsg → Option (Tx × Bool)
send_round tx m =
    let left = int_left tx m in
    if ltb left (2 ^ 31)
    then some (send_part tx m (int_data_len m) left)
    else if ltb (2 ^ 32 - left) (length tx.tx_fifo + hdr_len - fifo_size)
    then some (tx, false)
    else none

-- What follows a round.
abbrev pub next_turn : (Tx → Option Tx) → Option (Tx × Bool) → Option Tx
next_turn continue_loop none = none
next_turn continue_loop (some (tx, sent)) = if sent then continue_loop tx else some tx

-- One turn of the loop of sendData, by the message at hand and the queue.
abbrev pub send_turn : (Tx → Option Tx) → Tx → Option SerializedMsg → List SerializedMsg → Option Tx
send_turn continue_loop tx (some m) ms = next_turn continue_loop (send_round tx m)
send_turn continue_loop tx none [] = some tx
send_turn continue_loop tx none (m ∷ ms) =
    let start : Tx = record tx { s_msg = some m; s_msg_tx_pos = 0; tx_msg_list = ms } in
    guard (not (is_empty m.s_data)) >> next_turn continue_loop (send_round start m)

-- The loop of sendData. A round that goes on has used up a message, so the fuel never runs out.
unfoldable pub send_loop : ℕ → Tx → Option Tx
send_loop zero tx = none
send_loop (suc fuel) tx = send_turn (λ t. send_loop fuel t) tx tx.s_msg tx.tx_msg_list

unfoldable pub send_data : Tx → Option Tx
send_data tx = send_loop (suc (suc (length tx.tx_msg_list))) tx

unfoldable pub enq_msg : Tx → SerializedMsg → Option Tx
enq_msg tx m = send_data (record tx { tx_msg_list = tx.tx_msg_list ++ (m ∷ []) })

-- The loop over the trackers: the head of the first message that is not sent to its end, the
-- trackers left, and the ids passed to msgSent.
unfoldable pub pop_trackers : ℕ → ℕ → List TxTracker → List Bytes → ℕ × List TxTracker × List Bytes
pop_trackers head msg_head [] sent = (msg_head, [], sent)
pop_trackers head msg_head (t ∷ ts) sent =
    let rest = pop_trackers head (msg_head + t.len) ts (sent ++ (t.id ∷ [])) in
    if ltb head (msg_head + t.len) then (msg_head, t ∷ ts, sent) else rest

-- write(fd, txFifo_ + txHead_, txTail_ - txHead_)
pub data WriteResult : Type 0 where
  written : ℕ → WriteResult
  write_error : WriteResult

abbrev pub advance : Tx → ℕ → Tx × List Bytes
advance tx n =
    let head = tx.tx_head + n in
    let r = pop_trackers head tx.tx_msg_head tx.tx_trackers [] in
    (record tx { tx_head = head; tx_msg_head = r.0; tx_trackers = r.1 }, r.2)

-- The buffer after a write: emptied if all is written, and else the move of its contents.
unfoldable pub tidy : Tx → Option Tx
tidy tx =
    if tx.tx_head == length tx.tx_fifo
    then (do
      guard (is_empty tx.tx_trackers)
      guard (tx.tx_msg_head == tx.tx_head)
      some (record tx { tx_fifo = []; tx_head = 0; tx_msg_head = 0 }))
    else if tx.tx_msg_head == 0
        && ltb (tx_copy_move_size tx) data_copy_threshold
        && ltb (tx_fifo_room tx) fragment_threshold
    then some (record tx {
      tx_fifo = drop tx.tx_msg_head tx.tx_fifo;
      tx_head = tx.tx_head - tx.tx_msg_head;
      tx_msg_head = 0;
    })
    else some tx

-- The last test of handleTx.
abbrev pub idle_tx : Tx → Tx
idle_tx tx = record tx {
  tx_requested = if tx.tx_head == length tx.tx_fifo then false else tx.tx_requested;
}

-- handleTx, and the ids passed to msgSent.
unfoldable pub handle_tx : Tx → WriteResult → Option (Tx × List Bytes)
handle_tx tx (written zero) = some (idle_tx tx, [])
handle_tx tx (written (suc n)) = do
  let moved = advance tx (suc n)
  tidied ← tidy moved.0
  end ← send_data tidied
  some (idle_tx end, moved.1)
handle_tx tx write_error = some (idle_tx tx, [])

-- What happens to a sender: a message is put in the queue, or the socket is writable and takes at
-- most some number of bytes, or fails.
pub data TxEvent : Type 0 where
  enqueue : SerializedMsg → TxEvent
  writable : ℕ → TxEvent
  write_fails : TxEvent

-- The bytes that write takes.
abbrev pub taken : Tx → ℕ → ℕ
taken tx n = min n (length tx.tx_fifo - tx.tx_head)

-- The state and what was written, after some events.
unfoldable pub tx_run : List TxEvent → Tx → Bytes → Option (Tx × Bytes)
tx_run [] tx wire = some (tx, wire)
tx_run (enqueue m ∷ es) tx wire = do tx' ← enq_msg tx m; tx_run es tx' wire
tx_run (writable n ∷ es) tx wire = do
  r ← handle_tx tx (written (taken tx n))
  tx_run es r.0 (wire ++ take (taken tx n) (drop tx.tx_head tx.tx_fifo))
tx_run (write_fails ∷ es) tx wire = do r ← handle_tx tx write_error; tx_run es r.0 wire
