-- ===== src/MsgIo/Progress.antt =====
-- The loop of handleRx of src/MsgIo.cpp on the bytes of a stream of frames.
use objxp.Common.{
  ℕ, zero, suc, ◌+◌, ◌*◌, ◌/◌, ◌%◌, ◌≤◌, ◌<◌, ◌≡◌, refl, sym, ap, subst, ◌∙◌, ◌⊎◌, inl, inr, true,
  false, List, [], ◌∷◌, ◌++◌, arith, Bytes, All, length, length-append, drop, take-append,
  drop-append, drop-drop, append-nil, append_assoc, leb,
}
use objxp.MsgIo.{Frame, IsFrame, encode_frame, hdr_len, fifo_size}
use objxp.MsgIo.Rx.{RxResult, compact, read_header, rx_loop, header}

-- The stream of some frames.
abbrev pub encode : List Frame → Bytes
encode [] = []
encode (f ∷ fs) = encode_frame f ++ encode fs

-- A text is a prefix of another, or goes on behind it.
pub split_append {ℓ} :
    {A : Type ℓ} (a w d e : List A)
    → a ++ w ≡ d ++ e
    → length d ≤ length a
    → (a' : List A) × (a ≡ d ++ a') × (a' ++ w ≡ e)
split_append a w [] e h k = (a, refl, h)
split_append [] w (y ∷ d) e h k = absurd (omega arith)
split_append (x ∷ a) w (y ∷ d) e h k =
    let (a', p, q) = split_append a w d e (ground arith) (omega arith) in (a', ground arith, q)

-- The first of the frames has not arrived whole.
abbrev pub Waits : List Frame → Bytes → Type 0
Waits [] buf = Unit
Waits (f ∷ fs) buf = length buf < length (encode_frame f)

-- How far a call got in the frames that are due: `done` were delivered, and the bytes in the buffer
-- begin the stream of those that are left, without a whole frame.
pub record Progress (acc : List Frame) (due : List Frame) (wire : Bytes) (r : RxResult)
    : Type 0 where
  pub done : List Frame
  pub left : List Frame
  pub parts : due ≡ done ++ left
  pub received : r.received ≡ acc ++ done
  pub buffer : Bytes
  pub state : r.rx ≡ compact buffer
  pub goes_on : r.disconnected ≡ false
  pub stream : buffer ++ wire ≡ encode left
  pub room : length buffer < fifo_size
  pub waits : Waits left buffer

-- The loop on a buffer `buf` whose first frame has not arrived whole.
stops :
    (fuel : ℕ) (fifo : Bytes) (head : ℕ) (acc : List Frame) (f : Frame) (due : List Frame)
    (buf wire : Bytes)
    → drop head fifo ≡ buf
    → IsFrame f
    → buf ++ wire ≡ encode_frame f ++ encode due
    → length buf < length f.data_bytes + hdr_len
    → rx_loop (suc fuel) fifo head acc
      ≡ record { rx = compact buf; received = acc; disconnected = false }
unfolding rx_loop read_header
stops fuel fifo head acc f due [] wire e fr h k = rw (e, e)
stops fuel fifo head acc f due (a ∷ []) wire e fr h k = rw (e, e) (ground arith)
stops fuel fifo head acc f due (a ∷ b ∷ []) wire e fr h k = rw (e, e) (ground arith)
stops fuel fifo head acc f due (a ∷ b ∷ c ∷ []) wire e fr h k = rw (e, e) (ground arith)
stops fuel fifo head acc f due (a ∷ b ∷ c ∷ d ∷ []) wire e fr h k = rw (e, e) (ground arith)
stops fuel fifo head acc f due (a ∷ b ∷ c ∷ d ∷ g ∷ buf) wire e fr h k = rw (e, e) (ground arith)

-- What is read from the beginning of a frame.
read_header-encode_frame :
    (f : Frame) (buf : Bytes)
    → IsFrame f
    → read_header (encode_frame f ++ buf)
      ≡ header f.msg_type f.flags (length f.data_bytes) (f.data_bytes ++ buf)
unfolding read_header
read_header-encode_frame f buf fr =
    let ty : f.msg_type % 256 ≡ f.msg_type = omega arith in
    let fl : f.flags % 256 ≡ f.flags = omega arith in
    let len : length f.data_bytes / 256 * 256 + length f.data_bytes % 256 ≡ length f.data_bytes =
      omega arith in
    rw (ty, fl, len)

-- The loop on a buffer that begins with a whole frame.
continues :
    (fuel : ℕ) (fifo : Bytes) (head : ℕ) (acc : List Frame) (f : Frame) (buf : Bytes)
    → drop head fifo ≡ encode_frame f ++ buf
    → IsFrame f
    → rx_loop (suc fuel) fifo head acc
      ≡ rx_loop fuel fifo (head + (length f.data_bytes + hdr_len)) (acc ++ (f ∷ []))
unfolding rx_loop
continues fuel fifo head acc f buf e fr =
    let fits : leb (length f.data_bytes) (length (f.data_bytes ++ buf)) ≡ true =
      rw (length-append f.data_bytes buf) (ground arith) in
    rw (e, read_header-encode_frame f buf fr, fits, take-append f.data_bytes buf)

-- The loop on an empty buffer.
stops_empty :
    (fuel : ℕ) (fifo : Bytes) (head : ℕ) (acc : List Frame)
    → drop head fifo ≡ []
    → rx_loop (suc fuel) fifo head acc
      ≡ record { rx = compact []; received = acc; disconnected = false }
unfolding rx_loop read_header
stops_empty fuel fifo head acc e = rw (e, e)

after_frame :
    (fifo : Bytes) (head : ℕ) (f : Frame) (rest : Bytes)
    → drop head fifo ≡ encode_frame f ++ rest
    → drop (head + (length f.data_bytes + hdr_len)) fifo ≡ rest
after_frame fifo head f rest e =
    let n : length f.data_bytes + hdr_len ≡ length (encode_frame f) = omega arith in
    rw
      (n, sym (drop-drop (length (encode_frame f)) head fifo), e, drop-append (encode_frame f) rest)

leb-cases : (m n : ℕ) → m ≤ n ⊎ (n < m)
leb-cases m n = ground arith

deliver :
    (acc : List Frame) (f : Frame) {due : List Frame} {wire : Bytes} {r : RxResult}
    → Progress (acc ++ (f ∷ [])) due wire r
    → Progress acc (f ∷ due) wire r
deliver acc f p = record {
  done = f ∷ p.done;
  left = p.left;
  parts = ap (λ t. f ∷ t) p.parts;
  received = p.received ∙ append_assoc acc (f ∷ []) p.done;
  buffer = p.buffer;
  state = p.state;
  goes_on = p.goes_on;
  stream = p.stream;
  room = p.room;
  waits = p.waits;
}

-- How far the loop gets.
pub rx_loop-Progress :
    (fuel : ℕ) (fifo : Bytes) (head : ℕ) (acc due : List Frame) (buf wire : Bytes)
    → drop head fifo ≡ buf
    → All IsFrame due
    → buf ++ wire ≡ encode due
    → length buf < fuel
    → Progress acc due wire (rx_loop fuel fifo head acc)
rx_loop-Progress zero fifo head acc due buf wire e fs h k = absurd (omega arith)
rx_loop-Progress (suc fuel) fifo head acc [] [] wire e fs h k =
    subst (Progress acc [] wire) (sym (stops_empty fuel fifo head acc e)) (record {
      done = [];
      left = [];
      parts = refl;
      received = sym (append-nil acc);
      buffer = [];
      state = refl;
      goes_on = refl;
      stream = h;
      room = omega arith;
      waits = tt;
    })
rx_loop-Progress (suc fuel) fifo head acc [] (b ∷ buf) wire e fs h k = absurd (ground arith)
rx_loop-Progress (suc fuel) fifo head acc (f ∷ due) buf wire e (fr, frs) h k =
    elim (leb-cases (length (encode_frame f)) (length buf)) [
      | inl whole ↦
          let (a', p, q) = split_append buf wire (encode_frame f) (encode due) h whole in
          let due_ahead = after_frame fifo head f a' (e ∙ p) in
          let len : length buf ≡ length (encode_frame f) + length a' =
            rw (p, length-append (encode_frame f) a') in
          let rest =
            rx_loop-Progress fuel fifo (head + (length f.data_bytes + hdr_len)) (acc ++ (f ∷ []))
              due a' wire due_ahead frs q (omega arith) in
          subst (Progress acc (f ∷ due) wire) (sym (continues fuel fifo head acc f a' (e ∙ p) fr))
            (deliver acc f rest)
      | inr part ↦
          subst (Progress acc (f ∷ due) wire)
            (sym (stops fuel fifo head acc f due buf wire e fr h (omega arith)))
            (record {
              done = [];
              left = f ∷ due;
              parts = refl;
              received = sym (append-nil acc);
              buffer = buf;
              state = refl;
              goes_on = refl;
              stream = h;
              room = omega (arith, fr.fits);
              waits = part;
            })
    ]
