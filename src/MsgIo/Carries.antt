-- ===== src/MsgIo/Carries.antt =====
-- What the buffer of a sender of src/MsgIo.cpp carries: frames whose data, joined at the fragments,
-- are the messages in order.
use objxp.Common.{
  ℕ, ◌+◌, ◌^◌, ◌≤◌, ◌<◌, ◌≡◌, refl, sym, ap, ◌∙◌, List, [], ◌∷◌, ◌++◌, map, Option, none, some,
  arith, Bytes, All, All-append, length, length-take, take, take-append-drop, take_add, drop,
  append-nil, append_assoc, ◌==◌, if◌then◌else◌, Bool-cases, ◌⊎◌, inl, inr,
}
use objxp.MsgIo.{Frame, encode_frame, IsFrame, max_msg_len}
use objxp.MsgIo.Progress.{encode}
use objxp.MsgIo.Rounds.{last_frame, fragment}
use objxp.MsgIo.Tx.{SerializedMsg, msg_flag_none, msg_flag_more_frag}

-- A message that enqMsg may be given: its type is a byte, it is not empty, and an int holds its
-- length.
pub record IsMsg (m : SerializedMsg) : Type 0 where
  pub byte_type : m.msg_type < 256
  pub some_data : 0 < length m.s_data
  pub int_size : length m.s_data < 2 ^ 31

-- What a message says: its type and data.
abbrev pub payload : SerializedMsg → ℕ × Bytes
payload m = (m.msg_type, m.s_data)

-- A frame with one of the two flags that sendMsg is given.
abbrev pub IsFlag : Frame → Type 0
IsFlag f = (f.flags ≡ msg_flag_none) ⊎ (f.flags ≡ msg_flag_more_frag)

-- The messages of some frames, and the data of a last one of which more fragments follow.
unfoldable pub join_frags : Bytes → List Frame → List (ℕ × Bytes) × Bytes
join_frags part [] = ([], part)
join_frags part (f ∷ fs) =
    let more = join_frags (part ++ f.data_bytes) fs in
    let next = join_frags [] fs in
    if f.flags == msg_flag_more_frag
    then more
    else ((f.msg_type, part ++ f.data_bytes) ∷ next.0, next.1)

join_frags-last :
    (part : Bytes) (fs : List Frame) (f : Frame)
    → f.flags ≡ msg_flag_none
    → (let r = join_frags part fs in
        join_frags part (fs ++ (f ∷ [])) ≡ (r.0 ++ ((f.msg_type, r.1 ++ f.data_bytes) ∷ []), []))
unfolding join_frags
join_frags-last part [] f h = rw h
join_frags-last part (g ∷ fs) f h = elim (Bool-cases (g.flags == msg_flag_more_frag)) [
  | inl e ↦ rw (e, join_frags-last (part ++ g.data_bytes) fs f h)
  | inr e ↦ rw (e, join_frags-last [] fs f h)
]

join_frags-fragment :
    (part : Bytes) (fs : List Frame) (f : Frame)
    → f.flags ≡ msg_flag_more_frag
    → (let r = join_frags part fs in join_frags part (fs ++ (f ∷ [])) ≡ (r.0, r.1 ++ f.data_bytes))
unfolding join_frags
join_frags-fragment part [] f h = rw h
join_frags-fragment part (g ∷ fs) f h = elim (Bool-cases (g.flags == msg_flag_more_frag)) [
  | inl e ↦ rw (e, join_frags-fragment (part ++ g.data_bytes) fs f h)
  | inr e ↦ rw (e, join_frags-fragment [] fs f h)
]

encode-snoc : (fs : List Frame) (f : Frame) → encode (fs ++ (f ∷ [])) ≡ encode fs ++ encode_frame f
encode-snoc [] f = append-nil (encode_frame f)
encode-snoc (g ∷ fs) f =
    ap (λ t. encode_frame g ++ t) (encode-snoc fs f)
    ∙ sym (append_assoc (encode_frame g) (encode fs) (encode_frame f))

-- The part of the message at hand that is in the frames.
abbrev pub Partial : Option SerializedMsg → ℕ → Bytes → Type 0
Partial none pos part = part ≡ []
Partial (some m) pos part = (part ≡ take pos m.s_data) × (pos < length m.s_data) × IsMsg m

abbrev pub at_hand : Option SerializedMsg → List SerializedMsg
at_hand none = []
at_hand (some m) = m ∷ []

-- `wire` is what was written, `pending` what is left in the buffer, `cur` the message at hand, of
-- which `pos` bytes are in frames, and `queue` the messages that wait.
pub record Carries (msgs : List SerializedMsg) (wire pending : Bytes) (cur : Option SerializedMsg)
    (pos : ℕ) (queue : List SerializedMsg) : Type 0 where
  pub frames : List Frame
  pub stream : wire ++ pending ≡ encode frames
  pub valid : All IsFrame frames
  pub flagged : All IsFlag frames
  pub done : List (ℕ × Bytes)
  pub part : Bytes
  pub joined : join_frags [] frames ≡ (done, part)
  pub account : done ++ map payload (at_hand cur ++ queue) ≡ map payload msgs
  pub partial : Partial cur pos part
  pub queued : All IsMsg queue

snoc-stream :
    (wire pending : Bytes) (fs : List Frame) (f : Frame)
    → wire ++ pending ≡ encode fs
    → wire ++ (pending ++ encode_frame f) ≡ encode (fs ++ (f ∷ []))
snoc-stream wire pending fs f e =
    sym (append_assoc wire pending (encode_frame f))
    ∙ ap (λ t. t ++ encode_frame f) e
    ∙ sym (encode-snoc fs f)

module _ {msgs : List SerializedMsg} {wire pending : Bytes} where
  -- The last frame of the message at hand.
  pub Carries-last :
      {pos : ℕ} {queue : List SerializedMsg} (m : SerializedMsg)
      → Carries msgs wire pending (some m) pos queue
      → length (drop pos m.s_data) ≤ max_msg_len
      → Carries msgs wire (pending ++ encode_frame (last_frame m pos)) none 0 queue
  Carries-last {pos = pos} {queue = queue} m c k =
      let (p, h, valid_msg) = c.partial in
      let f = last_frame m pos in
      let whole : c.part ++ drop pos m.s_data ≡ m.s_data =
        ap (λ t. t ++ drop pos m.s_data) p ∙ take-append-drop pos m.s_data in
      record {
        frames = c.frames ++ (f ∷ []);
        stream = snoc-stream wire pending c.frames f c.stream;
        valid =
            All-append IsFrame c.frames (f ∷ []) c.valid
              (record { byte_type = valid_msg.byte_type; byte_flags = omega arith; fits = k }, tt);
        flagged = All-append IsFlag c.frames (f ∷ []) c.flagged (inl refl, tt);
        done = c.done ++ (payload m ∷ []);
        part = [];
        joined = join_frags-last [] c.frames f refl ∙ rw (c.joined, whole);
        account = append_assoc c.done (payload m ∷ []) (map payload queue) ∙ c.account;
        partial = refl;
        queued = c.queued;
      }

  -- A fragment of the message at hand, which is not its end.
  pub Carries-fragment :
      {pos : ℕ} {queue : List SerializedMsg} (m : SerializedMsg) (n : ℕ)
      → Carries msgs wire pending (some m) pos queue
      → n ≤ max_msg_len
      → pos + n < length m.s_data
      → Carries msgs wire (pending ++ encode_frame (fragment m pos n)) (some m) (pos + n) queue
  Carries-fragment {pos = pos} {queue = queue} m n c k h =
      let (p, _, valid_msg) = c.partial in
      let f = fragment m pos n in
      record {
        frames = c.frames ++ (f ∷ []);
        stream = snoc-stream wire pending c.frames f c.stream;
        valid = All-append IsFrame c.frames (f ∷ []) c.valid (
          record {
            byte_type = valid_msg.byte_type;
            byte_flags = omega arith;
            fits = omega (arith, length-take n (drop pos m.s_data));
          },
          tt,
        );
        flagged = All-append IsFlag c.frames (f ∷ []) c.flagged (inr refl, tt);
        done = c.done;
        part = c.part ++ take n (drop pos m.s_data);
        joined = join_frags-fragment [] c.frames f refl ∙ rw c.joined;
        account = c.account;
        partial =
            (ap (λ t. t ++ take n (drop pos m.s_data)) p ∙ take_add pos n m.s_data, h, valid_msg);
        queued = c.queued;
      }

  -- The next message is taken from the queue.
  pub Carries-next :
      {pos : ℕ} {queue : List SerializedMsg} (m : SerializedMsg)
      → Carries msgs wire pending none pos (m ∷ queue)
      → Carries msgs wire pending (some m) 0 queue
  Carries-next m c = record {
    frames = c.frames;
    stream = c.stream;
    valid = c.valid;
    flagged = c.flagged;
    done = c.done;
    part = c.part;
    joined = c.joined;
    account = c.account;
    partial = (c.partial, c.queued.0.some_data, c.queued.0);
    queued = c.queued.1;
  }

  -- Some bytes are written.
  pub Carries-written :
      {cur : Option SerializedMsg} {pos : ℕ} {queue : List SerializedMsg} (n : ℕ)
      → Carries msgs wire pending cur pos queue
      → Carries msgs (wire ++ take n pending) (drop n pending) cur pos queue
  Carries-written n c = record {
    frames = c.frames;
    stream =
        append_assoc wire (take n pending) (drop n pending)
        ∙ ap (λ t. wire ++ t) (take-append-drop n pending)
        ∙ c.stream;
    valid = c.valid;
    flagged = c.flagged;
    done = c.done;
    part = c.part;
    joined = c.joined;
    account = c.account;
    partial = c.partial;
    queued = c.queued;
  }
