-- ===== src/MsgIo/Rx.antt =====
-- MsgIoSession::handleRx of src/MsgIo.cpp. rxFifo_ is its first rxTail_ bytes.
use objxp.Common.{
  ℕ, zero, suc, ◌+◌, ◌-◌, ◌*◌, Bool, true, false, not, List, [], ◌∷◌, ◌++◌, Bytes, length, take,
  drop, leb, ◌==◌, if◌then◌else◌, min,
}
use objxp.MsgIo.{Frame, sig, hdr_len, fifo_size}

pub record Rx : Type 0 where
  pub rx_fifo : Bytes
  pub rx_head : ℕ

abbrev pub init_rx : Rx
init_rx = record { rx_fifo = []; rx_head = 0 }

-- What a call leaves: the state, the messages it handed to msgReceived in order, and whether it
-- disconnected the session.
pub record RxResult : Type 0 where
  pub rx : Rx
  pub received : List Frame
  pub disconnected : Bool

abbrev pub bad_sig : Bytes → Bool
bad_sig [] = false
bad_sig (b ∷ buf) = not (b == sig)

-- The fields of a header and the bytes behind it.
pub data Header : Type 0 where
  short : Header
  header : ℕ → ℕ → ℕ → Bytes → Header

unfoldable pub read_header : Bytes → Header
read_header (s ∷ ty ∷ fl ∷ hi ∷ lo ∷ rest) = header ty fl (hi * 256 + lo) rest
read_header _ = short

-- memmove(rxFifo_, rxFifo_ + rxHead_, bufLen)
abbrev pub compact : Bytes → Rx
compact buf = record { rx_fifo = buf; rx_head = 0 }

-- The loop of handleRx. Each round but the last takes a frame off, so fuel beyond the number of
-- bytes is enough.
unfoldable pub rx_loop : ℕ → Bytes → ℕ → List Frame → RxResult
rx_loop zero fifo head acc = record {
  rx = record { rx_fifo = fifo; rx_head = head };
  received = acc;
  disconnected = false;
}
rx_loop (suc fuel) fifo head acc =
    let buf = drop head fifo in
    let stop : RxResult = record { rx = compact buf; received = acc; disconnected = false } in
    if bad_sig buf
    then record {
      rx = record { rx_fifo = fifo; rx_head = head };
      received = acc;
      disconnected = true;
    }
    else elim (read_header buf) [
      | short ↦ stop
      | header ty fl len rest ↦
          let next =
            rx_loop fuel fifo (head + (len + hdr_len))
              (acc ++ (record { msg_type = ty; flags = fl; data_bytes = take len rest } ∷ [])) in
          if leb len (length rest) then next else stop
    ]

-- read(fd, rxFifo_ + rxTail_, FifoSize - rxTail_): the bytes read, the end of the connection (a
-- read of no bytes), or an error.
pub data ReadResult : Type 0 where
  bytes : Bytes → ReadResult
  read_error : ReadResult

unfoldable pub handle_rx : Rx → ReadResult → RxResult
handle_rx rx (bytes []) = record { rx = rx; received = []; disconnected = true }
handle_rx rx (bytes (b ∷ bs)) =
    let fifo = rx.rx_fifo ++ (b ∷ bs) in rx_loop (suc (length fifo)) fifo rx.rx_head []
handle_rx rx read_error = record { rx = rx; received = []; disconnected = false }

-- The socket has some bytes, of which `n + 1` have arrived: read takes those, up to the room that is
-- left in the buffer.
abbrev pub read_size : Rx → ℕ → ℕ
read_size rx n = min (suc n) (fifo_size - length rx.rx_fifo)

-- handleRx, each time that the socket is readable. Each number says how many more bytes have arrived
-- by then; `wire` is what the peer has sent and was not read.
unfoldable pub rx_run : Rx → List ℕ → Bytes → List Frame → RxResult × Bytes
rx_run rx [] wire acc = (record { rx = rx; received = acc; disconnected = false }, wire)
rx_run rx (n ∷ ns) [] acc = (record { rx = rx; received = acc; disconnected = false }, [])
rx_run rx (n ∷ ns) (b ∷ wire) acc =
    let k = read_size rx n in
    let r = handle_rx rx (bytes (take k (b ∷ wire))) in
    let rest = rx_run r.rx ns (drop k (b ∷ wire)) (acc ++ r.received) in
    if r.disconnected then (record r { received = acc ++ r.received }, drop k (b ∷ wire)) else rest
