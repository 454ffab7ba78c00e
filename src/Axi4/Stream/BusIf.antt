-- ===== src/Axi4/Stream/BusIf.antt =====
-- The virtual interface `bus_if_base` (include/logic/axi4/stream/bus_if_base.hpp) as the monitor and
-- the drivers see it: the signals of one AXI4-Stream bus, with a lane for each data byte.
use logic.Base.{ℕ, Bool, if◌then◌else◌, ◌==◌}
use logic.Bitstream.Defs.{Bitstream}

-- The values that the `get_` methods return between two rising edges of `aclk`.
pub record BusIf : Type 0 where
  pub areset_n : Bool
  pub tvalid : Bool
  pub tready : Bool
  pub tlast : Bool
  pub tkeep : ℕ → Bool
  pub tstrb : ℕ → Bool
  pub tdata : ℕ → ℕ
  pub tid : Bitstream
  pub tdest : Bitstream
  pub tuser : Bitstream

-- A write of one lane.
abbrev pub set_lane {ℓ} : {A : Type ℓ} → ℕ → A → (ℕ → A) → ℕ → A
set_lane offset value lanes i = if i == offset then value else lanes i

unfoldable pub set_tvalid : Bool → BusIf → BusIf
set_tvalid value vif = record vif { tvalid = value }

unfoldable pub set_tready : Bool → BusIf → BusIf
set_tready value vif = record vif { tready = value }

unfoldable pub set_tlast : Bool → BusIf → BusIf
set_tlast value vif = record vif { tlast = value }

unfoldable pub set_tkeep : ℕ → Bool → BusIf → BusIf
set_tkeep offset value vif = record vif { tkeep = set_lane offset value vif.tkeep }

unfoldable pub set_tstrb : ℕ → Bool → BusIf → BusIf
set_tstrb offset value vif = record vif { tstrb = set_lane offset value vif.tstrb }

unfoldable pub set_tdata : ℕ → ℕ → BusIf → BusIf
set_tdata offset value vif = record vif { tdata = set_lane offset value vif.tdata }

-- `set_tid`, `set_tdest` and `set_tuser` of a concrete bus cut a stream to the width of the signal.
-- What `get_` returns after `set_` is a parameter of the components that use them.
pub record Widths : Type 0 where
  pub fit_tid : Bitstream → Bitstream
  pub fit_tdest : Bitstream → Bitstream
  pub fit_tuser : Bitstream → Bitstream
