-- ===== src/MsgIo.antt =====
-- MsgIoSession, the message layer of src/MsgIo.cpp and include/MsgIo.h: frames on a byte stream.
pub mod Rx
pub mod Progress
pub mod Receive
pub mod Tx
pub mod Rounds
pub mod Carries
pub mod Sending
pub mod Written
pub mod Send
pub mod Put
pub mod PutInfo
pub mod Puts
pub mod PutRun
pub mod PutWire
pub mod Transaction
pub mod Cursor
pub mod ElementText
pub mod Elements
mod Tests
use objxp.Common.{ℕ, suc, ◌+◌, ◌-◌, ◌*◌, ◌/◌, ◌%◌, ◌≤◌, ◌<◌, List, [], ◌∷◌, ◌++◌, Bytes, length}

abbrev pub max_msg_len : ℕ
max_msg_len = 0xFFFF

abbrev pub hdr_len : ℕ
hdr_len = 5

abbrev pub fifo_size : ℕ
fifo_size = hdr_len + max_msg_len

abbrev pub fragment_threshold : ℕ
fragment_threshold = max_msg_len / 4

abbrev pub data_copy_threshold : ℕ
data_copy_threshold = max_msg_len / 4

-- The signature 'Y'.
abbrev pub sig : ℕ
sig = b'Y'

-- A message as msgReceived gets it: type, flags and data.
pub record Frame : Type 0 where
  pub msg_type : ℕ
  pub flags : ℕ
  pub data_bytes : Bytes

-- What sendMsg writes for a message of at most `max_msg_len` bytes. Type and flags are bytes.
abbrev pub encode_frame : Frame → Bytes
encode_frame f =
    sig
    ∷ (f.msg_type % 256)
    ∷ (f.flags % 256)
    ∷ (length f.data_bytes / 256)
    ∷ (length f.data_bytes % 256)
    ∷ f.data_bytes

-- A frame that fits the header's fields.
pub record IsFrame (f : Frame) : Type 0 where
  pub byte_type : f.msg_type < 256
  pub byte_flags : f.flags < 256
  pub fits : length f.data_bytes ≤ max_msg_len
