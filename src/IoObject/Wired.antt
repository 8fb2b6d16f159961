-- ===== src/IoObject/Wired.antt =====
-- An IoObject of src/IoObject.cpp and the tables of its service agree.
use objxp.Common.{
  ℕ, ◌≡◌, refl, ap, subst, ◌∙◌, Bool, true, false, not, List, [], ◌∷◌, Option, none, some, ◌>>=◌,
  if◌then◌else◌, arith,
}
use objxp.Timer.{set_at}
use objxp.IoObject.{
  Table, Io, add_object, remove_object, switch, rx_req, tx_req, init_io, deinit, IoCall, pause_rx,
  request_rx, resume_rx, reset_rx, pause_tx, request_tx, resume_tx, reset_tx, idle_tx, io_call,
  io_calls,
}

-- The object is in the table just where its flag is false.
abbrev pub Wired : ℕ → ℕ → Bool → Table → Type 0
Wired n a off t = (t.objs n ≡ (if off then none else some a)) × (t.bits n ≡ not off)

abbrev pub Absent : ℕ → Table → Type 0
Absent n t = (t.objs n ≡ none) × (t.bits n ≡ false)

set_at-same {ℓ} : {A : Type ℓ} → (f : ℕ → A) (n : ℕ) (a : A) → set_at f n a n ≡ a
set_at-same f n a = grind arith

add_object-absent :
    (t : Table) (n a : ℕ)
    → t.objs n ≡ none
    → add_object t (some n) a
      ≡ some (record { objs = set_at t.objs n (some a); bits = set_at t.bits n true })
unfolding add_object
add_object-absent t n a e =
    ap
      (λ x.
        let r : Option Table = elim x [
          | none ↦ some (record { objs = set_at t.objs n (some a); bits = set_at t.bits n true })
          | some b ↦ none
        ] in
        r)
      e

remove_object-found :
    (t : Table) (n a : ℕ)
    → t.objs n ≡ some a
    → remove_object t (some n)
      ≡ some (record { objs = set_at t.objs n none; bits = set_at t.bits n false })
unfolding remove_object
remove_object-found t n a e =
    ap
      (λ x.
        let r : Option Table = elim x [
          | none ↦ none
          | some b ↦ some (record { objs = set_at t.objs n none; bits = set_at t.bits n false })
        ] in
        r)
      e

switch-Wired :
    (on off : Bool) (n a : ℕ) (t : Table)
    → Wired n a off t
    → (r : Bool × Table) × (switch on (some n) a off t ≡ some r)
      × Wired n a r.0 r.1
      × (r.0 ≡ not on)
unfolding switch
switch-Wired true true n a t h = (
  (false, record { objs = set_at t.objs n (some a); bits = set_at t.bits n true }),
  ap (λ x. x >>= (λ u. some (false, u))) (add_object-absent t n a h.0),
  (set_at-same t.objs n (some a), set_at-same t.bits n true),
  refl,
)
switch-Wired true false n a t h = ((false, t), refl, h, refl)
switch-Wired false true n a t h = ((true, t), refl, h, refl)
switch-Wired false false n a t h = (
  (true, record { objs = set_at t.objs n none; bits = set_at t.bits n false }),
  ap (λ x. x >>= (λ u. some (true, u))) (remove_object-found t n a h.0),
  (set_at-same t.objs n none, set_at-same t.bits n false),
  refl,
)

pub record Agrees (n a : ℕ) (io : Io) : Type 0 where
  pub fd : io.fd ≡ some n
  pub address : io.address ≡ a
  pub rx : Wired n a io.rx_paused io.rd
  pub tx : Wired n a io.tx_ready io.wr

-- A request on a flag and its table, for the object's own descriptor and address.
switch-own :
    (on off : Bool) (n a : ℕ) (t : Table) (fd : Option ℕ) (b : ℕ)
    → fd ≡ some n
    → b ≡ a
    → switch on fd b off t ≡ switch on (some n) a off t
switch-own on off n a t fd b e q = rw (e, q) refl

deinit-some :
    (io : Io) (n : ℕ)
    → io.fd ≡ some n
    → deinit io
      ≡ (rx_req false io >>= (λ r. tx_req false r >>= (λ s. some (record s { fd = none }))))
unfolding deinit
deinit-some io n e =
    ap
      (λ x.
        let r : Option Io = elim x [
          | none ↦ some io
          | some fd ↦
              rx_req false io >>= (λ r. tx_req false r >>= (λ s. some (record s { fd = none })))
        ] in
        r)
      e

module _ (n a : ℕ) where
  rx_req-Agrees :
      (on : Bool) (io : Io)
      → Agrees n a io
      → (r : Io) × (rx_req on io ≡ some r) × Agrees n a r × (r.rx_paused ≡ not on)
  unfolding rx_req
  rx_req-Agrees on io g =
      let (r, e, w, o) = switch-Wired on io.rx_paused n a io.rd g.rx in
      let q = switch-own on io.rx_paused n a io.rd io.fd io.address g.fd g.address in
      (
        record io { rx_paused = r.0; rd = r.1 },
        ap (λ x. x >>= (λ r. some (record io { rx_paused = r.0; rd = r.1 }))) (q ∙ e),
        record { fd = g.fd; address = g.address; rx = w; tx = g.tx },
        o,
      )

  tx_req-Agrees :
      (on : Bool) (io : Io)
      → Agrees n a io
      → (r : Io) × (tx_req on io ≡ some r)
        × Agrees n a r
        × (r.tx_ready ≡ not on)
        × (r.rx_paused ≡ io.rx_paused)
  unfolding tx_req
  tx_req-Agrees on io g =
      let (r, e, w, o) = switch-Wired on io.tx_ready n a io.wr g.tx in
      let q = switch-own on io.tx_ready n a io.wr io.fd io.address g.fd g.address in
      (
        record io { tx_ready = r.0; wr = r.1 },
        ap (λ x. x >>= (λ r. some (record io { tx_ready = r.0; wr = r.1 }))) (q ∙ e),
        record { fd = g.fd; address = g.address; rx = g.rx; tx = w },
        o,
        refl,
      )

  rx_req-still :
      (on : Bool) (io : Io) → Agrees n a io → (r : Io) × (rx_req on io ≡ some r) × Agrees n a r
  rx_req-still on io g = let (r, e, h, o) = rx_req-Agrees on io g in (r, e, h)

  tx_req-still :
      (on : Bool) (io : Io) → Agrees n a io → (r : Io) × (tx_req on io ≡ some r) × Agrees n a r
  tx_req-still on io g = let (r, e, h, o, x) = tx_req-Agrees on io g in (r, e, h)

  io_call-Agrees :
      (c : IoCall) (io : Io) → Agrees n a io → (r : Io) × (io_call c io ≡ some r) × Agrees n a r
  unfolding io_call
  io_call-Agrees pause_rx io g = rx_req-still false io g
  io_call-Agrees request_rx io g = rx_req-still true io g
  io_call-Agrees resume_rx io g = rx_req-still true io g
  io_call-Agrees reset_rx io g = rx_req-still false io g
  io_call-Agrees pause_tx io g = tx_req-still true io g
  io_call-Agrees request_tx io g = tx_req-still true io g
  io_call-Agrees resume_tx io g = tx_req-still false io g
  io_call-Agrees reset_tx io g = tx_req-still false io g
  io_call-Agrees idle_tx io g = tx_req-still false io g

  pub io_calls-Agrees :
      (cs : List IoCall) (io : Io)
      → Agrees n a io
      → (r : Io) × (io_calls cs io ≡ some r) × Agrees n a r
  unfolding io_calls
  io_calls-Agrees [] io g = (io, refl, g)
  io_calls-Agrees (c ∷ cs) io g =
      let (r, e, h) = io_call-Agrees c io g in
      let (s, f, k) = io_calls-Agrees cs r h in (s, ap (λ x. x >>= (λ r. io_calls cs r)) e ∙ f, k)

  pub deinit-Absent :
      (io : Io) → Agrees n a io → (d : Io) × (deinit io ≡ some d) × Absent n d.rd × Absent n d.wr
  unfolding deinit
  deinit-Absent io g =
      let (r, e, h, o) = rx_req-Agrees false io g in
      let (s, f, k, p, q) = tx_req-Agrees false r h in
      let close : Option Io → Option Io = λ x. x >>= (λ s. some (record s { fd = none })) in
      let shut : Option Io → Option Io =
        λ x. x >>= (λ r. tx_req false r >>= (λ s. some (record s { fd = none }))) in
      (
        record s { fd = none },
        deinit-some io n g.fd ∙ ap shut e ∙ ap close f,
        subst (λ b. Wired n a b s.rd) (q ∙ o) k.rx,
        subst (λ b. Wired n a b s.wr) p k.tx,
      )

  pub init_io-Agrees :
      (rd wr : Table)
      → Absent n rd
      → Absent n wr
      → (r : Io) × (init_io a (some n) rd wr ≡ some r) × Agrees n a r
  unfolding init_io
  init_io-Agrees rd wr h k =
      rx_req-still true
        (record { address = a; fd = some n; rx_paused = true; tx_ready = true; rd = rd; wr = wr })
        (record { fd = refl; address = refl; rx = h; tx = k })
