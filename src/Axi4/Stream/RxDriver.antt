-- ===== src/Axi4/Stream/RxDriver.antt =====
-- src/logic/axi4/stream/rx_driver.cpp: drives the bytes of an item onto a bus. A loop is a recursion
-- on what the bus shows at each rising edge of `aclk`; the random numbers and the concrete bus are
-- parameters.
pub mod Lanes
pub mod Beats
pub mod Sending
pub mod Safety
pub mod Idle
pub mod Delivery
pub mod Progress
pub mod RunPhase
pub mod Cuts
pub mod Finishes
use logic.Base.{
  ℕ, zero, suc, ◌+◌, ◌-◌, Bool, true, false, not, ◌&&◌, Option, none, some, List, [], ◌∷◌,
  if◌then◌else◌, ◌==◌, ltb, leb, length, get_elem?,
}
use logic.Bitstream.Defs.{Bitstream, empty}
pub use logic.Axi4.Stream.Items.{RxItem}
use logic.Axi4.Stream.TdataByte.{ByteType, data_byte, null_byte, position_byte, reserved, TdataByte}
use logic.Axi4.Stream.BusIf.{BusIf, Widths, set_tvalid, set_tlast, set_tkeep, set_tstrb, set_tdata}

-- The `switch` on the type of a byte.
unfoldable pub keep_of : ByteType → Bool
keep_of data_byte = true
keep_of position_byte = true
keep_of reserved = false
keep_of null_byte = false

unfoldable pub strb_of : ByteType → Bool
strb_of data_byte = true
strb_of position_byte = false
strb_of reserved = true
strb_of null_byte = false

unfoldable pub drive_byte : ℕ → TdataByte → BusIf → BusIf
drive_byte i byte vif =
    set_tdata i byte.m_data
      (set_tstrb i (strb_of byte.m_type) (set_tkeep i (keep_of byte.m_type) vif))

unfoldable pub drive_nothing : ℕ → BusIf → BusIf
drive_nothing i vif = set_tdata i 0 (set_tstrb i false (set_tkeep i false vif))

-- `for (std::size_t i = 0; i < bus_size; ++i)`, with `left` lanes to go: the index into the data and
-- the bus after it. `get_elem?` is `none` exactly when `index >= total_size`.
unfoldable pub drive_lanes : List TdataByte → ℕ → ℕ → ℕ → BusIf → ℕ × BusIf
drive_lanes tdata zero i index vif = (index, vif)
drive_lanes tdata (suc left) i index vif = elim (get_elem? tdata index) [
  | some byte ↦ drive_lanes tdata left (suc i) (suc index) (drive_byte i byte vif)
  | none ↦ drive_lanes tdata left (suc i) index (drive_nothing i vif)
]

-- The local variables of `data_transfer`, the bus, how many random numbers were drawn, and whether
-- the time-out was reported.
pub record RxState : Type 0 where
  pub vif : BusIf
  pub is_running : Bool
  pub idle : ℕ
  pub timeout : ℕ
  pub transfer : ℕ
  pub index : ℕ
  pub draws : ℕ
  pub timed_out : Bool

-- What the receiver and the reset drive at a rising edge.
pub record Edge : Type 0 where
  pub areset_n : Bool
  pub tready : Bool

abbrev pub at_edge : Edge → BusIf → BusIf
at_edge edge vif = record vif { areset_n = edge.areset_n; tready = edge.tready }

-- `set_tuser(item.tuser[transfer])`, or `set_tuser({})` if there is no such word.
abbrev pub user_value : Widths → Option Bitstream → Bitstream
user_value widths (some tuser) = widths.fit_tuser tuser
user_value widths none = widths.fit_tuser empty

module _ (widths : Widths) (random_idle : ℕ → ℕ) (item : RxItem) (bus_size : ℕ) where
  -- The branch `0 == idle`: one transfer is put on the bus.
  unfoldable pub drive_transfer : RxState → RxState
  drive_transfer s =
      let (driven, vif) = drive_lanes item.tdata bus_size 0 s.index s.vif in
      let index = if bus_size == 0 then driven + 1 else driven in
      let total_size = length item.tdata in
      record s {
        idle = random_idle s.draws;
        draws = s.draws + 1;
        index = index;
        transfer = suc s.transfer;
        vif = set_tvalid true (
            set_tlast (leb total_size index) (record vif {
              tuser = user_value widths (get_elem? item.tuser s.transfer);
              tid = widths.fit_tid item.tid;
              tdest = widths.fit_tdest item.tdest;
            }));
      }

  -- The branch `m_vif->get_tready()`.
  unfoldable pub when_ready : RxState → RxState
  when_ready s =
      let s' : RxState = record s { vif = set_tvalid false s.vif; timeout = item.timeout } in
      if leb (length item.tdata) s'.index
      then record s' { is_running = false }
      else if s'.idle == 0
      then drive_transfer s'
      else record s' { idle = s'.idle - 1 }

  -- The branch where the receiver is not ready.
  unfoldable pub when_waiting : RxState → RxState
  when_waiting s =
      if item.timeout == 0
      then s
      else if s.timeout == 0
      then record s { is_running = false; timed_out = true }
      else record s { timeout = s.timeout - 1 }

  -- One turn of the loop, before `aclk_posedge`.
  unfoldable pub turn : Edge → RxState → RxState
  turn edge s =
      let s' : RxState = record s { vif = at_edge edge s.vif } in
      if edge.tready then when_ready s' else when_waiting s'

  -- The start of `data_transfer`.
  unfoldable pub start : BusIf → ℕ → RxState
  start vif draws = record {
    vif = vif;
    is_running = ltb 0 (length item.tdata);
    idle = random_idle draws;
    timeout = item.timeout;
    transfer = 0;
    index = 0;
    draws = draws + 1;
    timed_out = false;
  }

  -- `data_transfer` over the edges that follow: the state it leaves, whether it has returned, and
  -- what the bus showed at each edge until then.
  unfoldable pub data_transfer : List Edge → RxState → RxState × Bool × List BusIf
  data_transfer [] s = (s, false, [])
  data_transfer (edge ∷ edges) s =
      if s.is_running && edge.areset_n
      then (let (last, returned, seen) = data_transfer edges (turn edge s) in
          (last, returned, at_edge edge s.vif ∷ seen))
      else (record s { vif = set_tvalid false s.vif }, true, [])
