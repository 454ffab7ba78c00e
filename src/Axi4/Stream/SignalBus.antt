-- ===== src/Axi4/Stream/SignalBus.antt =====
-- include/logic/axi4/stream/bus_if.hpp and src/logic/axi4/stream/bus_if_base.cpp: the virtual interface
-- over SystemC signals. `none` is a type that does not exist or an access that C++ leaves undefined.
pub mod Lanes
pub mod Shown
pub mod Streams
pub mod Identifiers
use logic.Base.{ℕ, zero, suc, ◌*◌, Bool, Option, none, some, List, if◌then◌else◌, ltb, ◌>>=◌}
use logic.Bitstream.Defs.{Bitstream, make}
use logic.Bitstream.Whole.{bit}
use logic.Reference.{read, write}
use logic.Utils.{BitsType, bits_type, set_uint8, get_uint8, set_bool, get_bool}

-- `sc_signal`: a written value is read only after the next update of the simulator.
pub record Signal {ℓ} (A : Type ℓ) : Type ℓ where
  pub current : A
  pub next : A

module _ {ℓ} {A : Type ℓ} where
  unfoldable pub send : A → Signal A → Signal A
  send value signal = record signal { next = value }

  unfoldable pub update : Signal A → Signal A
  update signal = record { current = signal.next; next = signal.next }

pub record SignalBus : Type 0 where
  pub areset_n : Signal Bool
  pub tvalid : Signal Bool
  pub tready : Signal Bool
  pub tlast : Signal Bool
  pub tid : Signal ℕ
  pub tdata : Signal ℕ
  pub tstrb : Signal ℕ
  pub tkeep : Signal ℕ
  pub tdest : Signal ℕ
  pub tuser : Signal ℕ
  pub m_tdata : ℕ
  pub m_tkeep : ℕ
  pub m_tstrb : ℕ

-- The update of all signals.
unfoldable pub update_bus : SignalBus → SignalBus
update_bus bus = record bus {
  areset_n = update bus.areset_n;
  tvalid = update bus.tvalid;
  tready = update bus.tready;
  tlast = update bus.tlast;
  tid = update bus.tid;
  tdata = update bus.tdata;
  tstrb = update bus.tstrb;
  tkeep = update bus.tkeep;
  tdest = update bus.tdest;
  tuser = update bus.tuser;
}

-- `bus_if_base`
unfoldable pub get_areset_n : SignalBus → Bool
get_areset_n bus = bus.areset_n.current

unfoldable pub set_tvalid : Bool → SignalBus → SignalBus
set_tvalid value bus = record bus { tvalid = send value bus.tvalid }

unfoldable pub get_tvalid : SignalBus → Bool
get_tvalid bus = bus.tvalid.current

unfoldable pub set_tready : Bool → SignalBus → SignalBus
set_tready value bus = record bus { tready = send value bus.tready }

unfoldable pub get_tready : SignalBus → Bool
get_tready bus = bus.tready.current

unfoldable pub set_tlast : Bool → SignalBus → SignalBus
set_tlast value bus = record bus { tlast = send value bus.tlast }

unfoldable pub get_tlast : SignalBus → Bool
get_tlast bus = bus.tlast.current

-- The lanes of a bus of `m_tdata_bytes` bytes.
module _ (m_tdata_bytes : ℕ) where
  unfoldable pub get_tdata : ℕ → SignalBus → Option ℕ
  get_tdata offset bus = do
    t ← bits_type (m_tdata_bytes * 8)
    get_uint8 t bus.tdata.current (8 * offset)

  unfoldable pub set_tdata : ℕ → ℕ → SignalBus → Option SignalBus
  set_tdata offset value bus = do
    t ← bits_type (m_tdata_bytes * 8)
    m_tdata ← set_uint8 t bus.m_tdata (8 * offset) value
    some (record bus { m_tdata = m_tdata; tdata = send m_tdata bus.tdata })

  unfoldable pub get_tkeep : ℕ → SignalBus → Option Bool
  get_tkeep offset bus = do t ← bits_type m_tdata_bytes; get_bool t bus.tkeep.current offset

  unfoldable pub set_tkeep : ℕ → Bool → SignalBus → Option SignalBus
  set_tkeep offset value bus = do
    t ← bits_type m_tdata_bytes
    m_tkeep ← set_bool t bus.m_tkeep offset value
    some (record bus { m_tkeep = m_tkeep; tkeep = send m_tkeep bus.tkeep })

  unfoldable pub get_tstrb : ℕ → SignalBus → Option Bool
  get_tstrb offset bus = do t ← bits_type m_tdata_bytes; get_bool t bus.tstrb.current offset

  unfoldable pub set_tstrb : ℕ → Bool → SignalBus → Option SignalBus
  set_tstrb offset value bus = do
    t ← bits_type m_tdata_bytes
    m_tstrb ← set_bool t bus.m_tstrb offset value
    some (record bus { m_tstrb = m_tstrb; tstrb = send m_tstrb bus.tstrb })

-- `for (i = 0; i < width; ++i) bits[i] = get_bool(value, i);`, with `left` rounds to go.
unfoldable pub load : BitsType → ℕ → ℕ → ℕ → List ℕ → Option (List ℕ)
load t value zero i bits = some bits
load t value (suc left) i bits = do
  b ← get_bool t value i
  bits' ← write b (bit (some 0) i) bits
  load t value left (suc i) bits'

-- `for (i = 0; i < bits_size; ++i) set(value, i, bool(bits[i]));`
unfoldable pub store : BitsType → List ℕ → ℕ → ℕ → ℕ → Option ℕ
store t bits zero i value = some value
store t bits (suc left) i value = do
  b ← read (bit (some 0) i) bits
  value' ← set_bool t value i b
  store t bits left (suc i) value'

-- `get_tid`, `get_tdest` and `get_tuser` read a signal of so many bits, and the `set_` ones write one.
unfoldable pub get_stream : ℕ → Signal ℕ → Option Bitstream
get_stream width signal = do
  t ← bits_type width
  bits ← load t signal.current width 0 (make width).m_bits
  some (record { m_bits = bits; m_size = width })

unfoldable pub set_stream : ℕ → Bitstream → Signal ℕ → Option (Signal ℕ)
set_stream width bits signal = do
  t ← bits_type width
  let bits_size = if ltb bits.m_size width then bits.m_size else width
  value ← store t bits.m_bits bits_size 0 0
  some (send value signal)

module _ (width : ℕ) where
  unfoldable pub get_tid : SignalBus → Option Bitstream
  get_tid bus = get_stream width bus.tid

  unfoldable pub set_tid : Bitstream → SignalBus → Option SignalBus
  set_tid bits bus = do tid ← set_stream width bits bus.tid; some (record bus { tid = tid })

  unfoldable pub get_tdest : SignalBus → Option Bitstream
  get_tdest bus = get_stream width bus.tdest

  unfoldable pub set_tdest : Bitstream → SignalBus → Option SignalBus
  set_tdest bits bus = do
    tdest ← set_stream width bits bus.tdest
    some (record bus { tdest = tdest })

  unfoldable pub get_tuser : SignalBus → Option Bitstream
  get_tuser bus = get_stream width bus.tuser

  unfoldable pub set_tuser : Bitstream → SignalBus → Option SignalBus
  set_tuser bits bus = do
    tuser ← set_stream width bits bus.tuser
    some (record bus { tuser = tuser })
