-- ===== src/Tests/Signals.antt =====
-- A bus over SystemC signals (include/logic/axi4/stream/bus_if.hpp).
use logic.Base.{ℕ, ◌≡◌, refl, true, false, none, inl, [], ◌∷◌, arith}
use logic.Bitstream.Defs.{Bitstream}
use logic.Bitstream.Valid.{IsValid}
use logic.Axi4.Stream.SignalBus.{
  Signal, SignalBus, get_tid, set_tid, get_tdest, set_tdest, get_tuser, set_tuser,
}
use logic.Axi4.Stream.SignalBus.Lanes.{IsInStep}
use logic.Axi4.Stream.SignalBus.Shown.{LaneDriven, drive_lane-LaneDriven}
use logic.Axi4.Stream.SignalBus.Identifiers.{IdSent, identifiers-IdSent, identifiers_undefined}

abbrev low : Signal ℕ
low = record { current = 0; next = 0 }

abbrev idle_bus : SignalBus
idle_bus = record {
  areset_n = record { current = true; next = true };
  tvalid = record { current = false; next = false };
  tready = record { current = true; next = true };
  tlast = record { current = false; next = false };
  tid = low;
  tdata = low;
  tstrb = low;
  tkeep = low;
  tdest = low;
  tuser = low;
  m_tdata = 0;
  m_tkeep = 0;
  m_tstrb = 0;
}

idle_bus-IsInStep : IsInStep 4 idle_bus
idle_bus-IsInStep = record {
  tdata_follows = refl;
  tkeep_follows = refl;
  tstrb_follows = refl;
  tkeep_holds = λ e. omega arith;
  tstrb_holds = λ e. omega arith;
}

drive_lane-LaneDriven_example : LaneDriven 4 2 true false 0xab idle_bus
drive_lane-LaneDriven_example =
    drive_lane-LaneDriven 4 2 true false 0xab idle_bus (omega arith) (omega arith) idle_bus-IsInStep

abbrev wide_id : Bitstream
wide_id = record { m_bits = 0xc5 ∷ 0x03 ∷ []; m_size = 10 }

wide_id-IsValid : IsValid wide_id
wide_id-IsValid = record {
  fits = omega arith;
  allocated = omega arith;
  are_bytes = (omega arith, (omega arith, tt));
}

identifiers-IdSent_example :
    IdSent 8 wide_id (set_tid 8 wide_id idle_bus) (get_tid 8)
    × IdSent 8 wide_id (set_tdest 8 wide_id idle_bus) (get_tdest 8)
    × IdSent 8 wide_id (set_tuser 8 wide_id idle_bus) (get_tuser 8)
identifiers-IdSent_example =
    identifiers-IdSent 8 wide_id idle_bus (omega arith) (inl (omega arith)) (omega arith)
      wide_id-IsValid

identifiers_undefined_example :
    (get_tid 40 idle_bus ≡ none) × (get_tdest 40 idle_bus ≡ none) × (get_tuser 40 idle_bus ≡ none)
identifiers_undefined_example = identifiers_undefined 40 idle_bus (omega arith) (omega arith)
