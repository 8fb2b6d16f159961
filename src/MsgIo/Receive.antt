-- ===== src/MsgIo/Receive.antt =====
-- handleRx of src/MsgIo.cpp delivers the frames that were sent, however the stream is cut.
use objxp.Common.{
  ℕ, suc, ◌-◌, ◌≤◌, ◌<◌, ◌≡◌, refl, sym, ap, subst, ◌∙◌, false, List, [], ◌∷◌, ◌++◌, arith, Bytes,
  All, length, length-append, take, drop, length-take, length-drop, take-append-drop, append-nil,
  append_assoc,
}
use objxp.MsgIo.{Frame, IsFrame, encode_frame, fifo_size}
use objxp.MsgIo.Rx.{Rx, init_rx, RxResult, compact, handle_rx, bytes, read_size, rx_run}
use objxp.MsgIo.Progress.{encode, Waits, Progress, rx_loop-Progress}

handle_rx-Progress :
    (buf bs wire : Bytes) (due : List Frame)
    → All IsFrame due
    → buf ++ (bs ++ wire) ≡ encode due
    → 0 < length bs
    → Progress [] due wire (handle_rx (compact buf) (bytes bs))
unfolding handle_rx
handle_rx-Progress buf [] wire due fs h k = absurd (omega arith)
handle_rx-Progress buf (b ∷ bs) wire due fs h k =
    rx_loop-Progress (suc (length (buf ++ (b ∷ bs)))) (buf ++ (b ∷ bs)) 0 [] due (buf ++ (b ∷ bs))
      wire refl fs (append_assoc buf (b ∷ bs) wire ∙ h) (omega arith)

-- Progress after progress.
then_on :
    (acc due : List Frame) {wire wire' : Bytes} {r r' : RxResult} (p : Progress [] due wire r)
    → Progress (acc ++ r.received) p.left wire' r'
    → Progress acc due wire' r'
then_on acc due {r = r} p q = record {
  done = p.done ++ q.done;
  left = q.left;
  parts = p.parts ∙ ap (λ t. p.done ++ t) q.parts ∙ sym (append_assoc p.done q.done q.left);
  received =
      q.received ∙ ap (λ t. (acc ++ t) ++ q.done) p.received ∙ append_assoc acc p.done q.done;
  buffer = q.buffer;
  state = q.state;
  goes_on = q.goes_on;
  stream = q.stream;
  room = q.room;
  waits = q.waits;
}

All-right {ℓ κ} : {A : Type ℓ} (P : A → Type κ) (xs ys : List A) → All P (xs ++ ys) → All P ys
All-right P [] ys h = h
All-right P (x ∷ xs) ys h = All-right P xs ys h.1

rx_run_step :
    (ns : List ℕ) (n : ℕ) (acc : List Frame) (rx : Rx) (b : ℕ) (wire buffer : Bytes)
    → (let k = read_size rx n in
        let r = handle_rx rx (bytes (take k (b ∷ wire))) in
        r.disconnected ≡ false
        → r.rx ≡ compact buffer
        → rx_run rx (n ∷ ns) (b ∷ wire) acc
          ≡ rx_run (compact buffer) ns (drop k (b ∷ wire)) (acc ++ r.received))
unfolding rx_run
rx_run_step ns n acc rx b wire buffer e f = rw (e, f)

-- How far the calls got, and that each took at least a byte.
abbrev pub Ahead : List Frame → List Frame → ℕ → RxResult × Bytes → Type 0
Ahead acc due bound end = Progress acc due end.1 end.0 × (length end.1 ≤ bound)

rx_run-Ahead :
    (ns : List ℕ) (acc due : List Frame) (buf wire : Bytes)
    → All IsFrame due
    → buf ++ wire ≡ encode due
    → length buf < fifo_size
    → Waits due buf
    → Ahead acc due (length wire - length ns) (rx_run (compact buf) ns wire acc)
unfolding rx_run
rx_run-Ahead [] acc due buf wire fs h room w = (
  record {
    done = [];
    left = due;
    parts = refl;
    received = sym (append-nil acc);
    buffer = buf;
    state = refl;
    goes_on = refl;
    stream = h;
    room = room;
    waits = w;
  },
  omega arith,
)
rx_run-Ahead (n ∷ ns) acc due buf [] fs h room w = (
  record {
    done = [];
    left = due;
    parts = refl;
    received = sym (append-nil acc);
    buffer = buf;
    state = refl;
    goes_on = refl;
    stream = h;
    room = room;
    waits = w;
  },
  omega arith,
)
rx_run-Ahead (n ∷ ns) acc due buf (b ∷ wire) fs h room w =
    let k = read_size (compact buf) n in
    let some_byte : 0 < length (take k (b ∷ wire)) = rw (length-take k (b ∷ wire)) (omega arith) in
    let due_now : buf ++ (take k (b ∷ wire) ++ drop k (b ∷ wire)) ≡ encode due =
      rw (take-append-drop k (b ∷ wire)) h in
    let p =
      handle_rx-Progress buf (take k (b ∷ wire)) (drop k (b ∷ wire)) due fs due_now some_byte in
    let later = All-right IsFrame p.done p.left (subst (All IsFrame) p.parts fs) in
    let (q, bound) =
      rx_run-Ahead ns (acc ++ (handle_rx (compact buf) (bytes (take k (b ∷ wire)))).received) p.left
        p.buffer (drop k (b ∷ wire)) later p.stream p.room p.waits in
    let shorter : length (drop k (b ∷ wire)) ≤ length wire =
      rw (length-drop k (b ∷ wire)) (omega arith) in
    subst (Ahead acc due (suc (length wire) - suc (length ns)))
      (sym (rx_run_step ns n acc (compact buf) b wire p.buffer p.goes_on p.state))
      (then_on acc due p q, omega (arith, bound, shorter))

Waits-start : (fs : List Frame) → Waits fs []
Waits-start [] = tt
Waits-start (f ∷ fs) = omega arith

-- However the stream of some frames arrives cut in pieces, at any time the calls of handleRx have
-- handed over the first frames in order, each once and unchanged, have not disconnected, and keep
-- in the buffer the beginning of what is left, less than a whole frame and less than the buffer
-- holds, so that the next read asks for a byte.
pub rx_run-in_order :
    (ns : List ℕ) (fs : List Frame)
    → All IsFrame fs
    → (let end = rx_run init_rx ns (encode fs) [] in Progress [] fs end.1 end.0)
rx_run-in_order ns fs valid =
    (rx_run-Ahead ns [] fs [] (encode fs) valid refl (omega arith) (Waits-start fs)).0

none_left :
    (left : List Frame) (buffer wire : Bytes)
    → length wire ≤ 0
    → buffer ++ wire ≡ encode left
    → Waits left buffer
    → (left ≡ []) × (buffer ≡ []) × (wire ≡ [])
none_left left buffer (b ∷ wire) k h w = absurd (omega arith)
none_left [] [] [] k h w = (refl, refl, refl)
none_left [] (b ∷ buffer) [] k h w = absurd (ground arith)
none_left (f ∷ left) buffer [] k h w =
    let len : length buffer ≡ length (encode_frame f ++ encode left) =
      ap length (sym (append-nil buffer) ∙ h) in
    absurd (omega (arith, len, length-append (encode_frame f) (encode left)))

all_delivered :
    (fs : List Frame) (bound : ℕ) (r : RxResult) (wire : Bytes)
    → Progress [] fs wire r
    → length wire ≤ bound
    → bound ≡ 0
    → (r ≡ record { rx = init_rx; received = fs; disconnected = false }) × (wire ≡ [])
all_delivered fs bound r wire p k e =
    let (no_frame, no_byte, no_wire) =
      none_left p.left p.buffer wire (omega arith) p.stream p.waits in
    let got : r.received ≡ fs =
      p.received ∙ sym (p.parts ∙ ap (λ t. p.done ++ t) no_frame ∙ append-nil p.done) in
    let state : r.rx ≡ init_rx = p.state ∙ ap compact no_byte in
    (rw (sym got, sym p.goes_on, sym state), no_wire)

-- Where the stream of some frames arrives in pieces and there are at least as many calls of
-- handleRx as bytes, every frame is handed over, in order, and the buffer is empty at the end.
pub rx_run-delivers :
    (ns : List ℕ) (fs : List Frame)
    → All IsFrame fs
    → length (encode fs) ≤ length ns
    → (let end = rx_run init_rx ns (encode fs) [] in
        (end.0 ≡ record { rx = init_rx; received = fs; disconnected = false }) × (end.1 ≡ []))
rx_run-delivers ns fs valid enough =
    let (p, bound) =
      rx_run-Ahead ns [] fs [] (encode fs) valid refl (omega arith) (Waits-start fs) in
    let end = rx_run init_rx ns (encode fs) [] in
    all_delivered fs (length (encode fs) - length ns) end.0 end.1 p bound (omega arith)
