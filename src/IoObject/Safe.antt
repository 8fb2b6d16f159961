-- ===== src/IoObject/Safe.antt =====
-- The assertions of registerRx, unregisterRx, registerTx and unregisterTx in src/BasicIoService.cpp.
use objxp.Common.{ℕ, ◌≡◌, ap, ◌∙◌, List, some, ◌>>=◌}
use objxp.IoObject.{Table, Io, init_io, deinit, IoCall, io_calls}
use objxp.IoObject.Wired.{Wired, Absent, init_io-Agrees, io_calls-Agrees, deinit-Absent}

-- An object that is initialised with a descriptor which neither table of the service holds: after
-- any calls of its pause, request, resume, reset and idle functions no assertion of the service has
-- failed, the service holds the object and its bit for reading just where rx_paused is false, and
-- for writing just where tx_ready is false; then deinit fails no assertion, and the service holds
-- neither the descriptor nor its bits.
pub io_calls-safe :
    (n a : ℕ) (rd wr : Table) (cs : List IoCall)
    → Absent n rd
    → Absent n wr
    → (r : Io) × ((init_io a (some n) rd wr >>= (λ io. io_calls cs io)) ≡ some r)
      × Wired n a r.rx_paused r.rd
      × Wired n a r.tx_ready r.wr
      × (d : Io) × (deinit r ≡ some d)
      × Absent n d.rd
      × Absent n d.wr
io_calls-safe n a rd wr cs h k =
    let (i, e, g) = init_io-Agrees n a rd wr h k in
    let (r, f, l) = io_calls-Agrees n a cs i g in
    let (d, p, q, u) = deinit-Absent n a r l in
    (r, ap (λ x. x >>= (λ io. io_calls cs io)) e ∙ f, l.rx, l.tx, d, p, q, u)
