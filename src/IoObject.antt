-- ===== src/IoObject.antt =====
-- IoObject of src/IoObject.cpp and include/IoObject.h, with registerRx, unregisterRx, registerTx and
-- unregisterTx of src/BasicIoService.cpp. `none` is a failed assertion. Setting the descriptor
-- non-blocking, closing it and the counters are left out.
pub mod Wired
pub mod Safe
mod Tests
use objxp.Common.{
  ℕ, ◌≡◌, Bool, true, false, not, List, [], ◌∷◌, Option, none, some, ◌>>=◌, ◌==◌, if◌then◌else◌,
}
use objxp.Timer.{set_at}

-- rdObjs_ with rdBits_, or wrObjs_ with wrBits_. An object is its address.
pub record Table : Type 0 where
  pub objs : ℕ → Option ℕ
  pub bits : ℕ → Bool

-- An object and the tables of its service. `fd` is none for -1.
pub record Io : Type 0 where
  pub address : ℕ
  pub fd : Option ℕ
  pub rx_paused : Bool
  pub tx_ready : Bool
  pub rd : Table
  pub wr : Table

-- registerRx and registerTx, each on its table.
unfoldable pub add_object : Table → Option ℕ → ℕ → Option Table
add_object t none a = none
add_object t (some fd) a = elim (t.objs fd) [
  | none ↦ some (record { objs = set_at t.objs fd (some a); bits = set_at t.bits fd true })
  | some b ↦ none
]

-- unregisterRx and unregisterTx, each on its table.
unfoldable pub remove_object : Table → Option ℕ → Option Table
remove_object t none = none
remove_object t (some fd) = elim (t.objs fd) [
  | none ↦ none
  | some b ↦ some (record { objs = set_at t.objs fd none; bits = set_at t.bits fd false })
]

-- rxReq and txReq, each on its flag, which is true while the object is not in its table.
unfoldable pub switch : Bool → Option ℕ → ℕ → Bool → Table → Option (Bool × Table)
switch true fd a true t = do u ← add_object t fd a; some (false, u)
switch true fd a false t = some (false, t)
switch false fd a true t = some (true, t)
switch false fd a false t = do u ← remove_object t fd; some (true, u)

unfoldable pub rx_req : Bool → Io → Option Io
rx_req on io = do
  r ← switch on io.fd io.address io.rx_paused io.rd
  some (record io { rx_paused = r.0; rd = r.1 })

unfoldable pub tx_req : Bool → Io → Option Io
tx_req on io = do
  r ← switch on io.fd io.address io.tx_ready io.wr
  some (record io { tx_ready = r.0; wr = r.1 })

unfoldable pub init_io : ℕ → Option ℕ → Table → Table → Option Io
init_io a none rd wr =
    some (record { address = a; fd = none; rx_paused = true; tx_ready = true; rd = rd; wr = wr })
init_io a (some fd) rd wr =
    rx_req true
      (record { address = a; fd = some fd; rx_paused = true; tx_ready = true; rd = rd; wr = wr })

unfoldable pub deinit : Io → Option Io
deinit io = elim io.fd [
  | none ↦ some io
  | some fd ↦ do r ← rx_req false io; s ← tx_req false r; some (record s { fd = none })
]

-- The calls of the object's users.
pub data IoCall : Type 0 where
  pause_rx request_rx resume_rx reset_rx : IoCall
  pause_tx request_tx resume_tx reset_tx idle_tx : IoCall

unfoldable pub io_call : IoCall → Io → Option Io
io_call pause_rx io = rx_req false io
io_call request_rx io = rx_req true io
io_call resume_rx io = rx_req true io
io_call reset_rx io = rx_req false io
io_call pause_tx io = tx_req true io
io_call request_tx io = tx_req true io
io_call resume_tx io = tx_req false io
io_call reset_tx io = tx_req false io
io_call idle_tx io = tx_req false io

unfoldable pub io_calls : List IoCall → Io → Option Io
io_calls [] io = some io
io_calls (c ∷ cs) io = do r ← io_call c io; io_calls cs r
