-- ===== src/IoObject/Tests.antt =====
-- Tests of IoObject.
use objxp.Common.{◌≡◌, refl, false, List, [], ◌∷◌, none, some, ◌>>=◌}
use objxp.IoObject.{
  Table, Io, init_io, deinit, IoCall, pause_rx, resume_rx, request_tx, idle_tx, io_calls,
}
use objxp.IoObject.Wired.{Wired, Absent}
use objxp.IoObject.Safe.{io_calls-safe}

abbrev other : Table
other = record { objs = λ n. none; bits = λ n. false }

abbrev calls : List IoCall
calls = pause_rx ∷ request_tx ∷ resume_rx ∷ idle_tx ∷ request_tx ∷ []

io_calls-safe_example :
    (r : Io) × ((init_io 9 (some 4) other other >>= (λ io. io_calls calls io)) ≡ some r)
    × Wired 4 9 r.rx_paused r.rd
    × Wired 4 9 r.tx_ready r.wr
    × (d : Io) × (deinit r ≡ some d)
    × Absent 4 d.rd
    × Absent 4 d.wr
io_calls-safe_example = io_calls-safe 4 9 other other calls (refl, refl) (refl, refl)
