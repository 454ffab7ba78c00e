-- ===== src/Axi4/Stream/SignalBus/Lanes.antt =====
-- The lanes of include/logic/axi4/stream/bus_if.hpp against the bus interface that the drivers and the
-- monitor use: a written lane is read after the next update, and the others as they were written.
use logic.Base.{
  ℕ, ◌*◌, ◌/◌, ◌%◌, ◌^◌, ◌<◌, ◌≡◌, refl, ap, ◌∙◌, Bool, true, false, Option, some, arith, ◌==◌,
  if◌then◌else◌,
}
use logic.Bits.Digit.{digit, bit_of}
use logic.Utils.{BitsType}
use logic.Utils.Laws.{Sets, width}
use logic.Utils.Fields.{bits_type-Typed, set_bool-Sets, set_uint8-Sets, lane-Sets}
use logic.Axi4.Stream.BusIf.{set_lane}
use logic.Axi4.Stream.SignalBus.{SignalBus, send, set_tdata, set_tkeep, set_tstrb}

-- The signals of the lanes follow the values that the writes collect.
pub record IsInStep (n : ℕ) (bus : SignalBus) : Type 0 where
  pub tdata_follows : bus.tdata.next ≡ bus.m_tdata
  pub tkeep_follows : bus.tkeep.next ≡ bus.m_tkeep
  pub tstrb_follows : bus.tstrb.next ≡ bus.m_tstrb
  pub tkeep_holds : n ≡ 1 → bus.m_tkeep < 2
  pub tstrb_holds : n ≡ 1 → bus.m_tstrb < 2

-- What the lanes show after the next update.
abbrev pub data_lane : SignalBus → ℕ → ℕ
data_lane bus i = bus.m_tdata / 2 ^ (8 * i) % 256

abbrev pub keep_lane : SignalBus → ℕ → Bool
keep_lane bus i = digit bus.m_tkeep i == 1

abbrev pub strb_lane : SignalBus → ℕ → Bool
strb_lane bus i = digit bus.m_tstrb i == 1

-- After a write of one lane of data.
pub record DataSet (n i value : ℕ) (bus : SignalBus) : Type 0 where
  pub out : SignalBus
  pub returns : set_tdata n i value bus ≡ some out
  pub in_step : IsInStep n out
  pub lanes : (j : ℕ) → j < n → data_lane out j ≡ set_lane i value (data_lane bus) j
  pub keep : out.m_tkeep ≡ bus.m_tkeep
  pub strb : out.m_tstrb ≡ bus.m_tstrb

pub set_tdata-DataSet :
    (n i value : ℕ) (bus : SignalBus) → i < n → value < 256 → IsInStep n bus → DataSet n i value bus
set_tdata-DataSet n i value bus h k s =
    let typed = bits_type-Typed (n * 8) (omega arith) in
    let set = set_uint8-Sets typed.t bus.m_tdata (8 * i) value (omega (arith, typed.wide)) k in
    record {
      out = record bus { m_tdata = set.out; tdata = send set.out bus.tdata };
      returns = unfold set_tdata in rw (typed.chosen, set.returns) refl;
      in_step = record {
        tdata_follows = unfold send in refl;
        tkeep_follows = s.tkeep_follows;
        tstrb_follows = s.tstrb_follows;
        tkeep_holds = s.tkeep_holds;
        tstrb_holds = s.tstrb_holds;
      };
      lanes = λ j lt. lane-Sets bus.m_tdata i value set k j (omega (arith, typed.wide));
      keep = refl;
      strb = refl;
    }

bit_of_test : (value : Bool) → (bit_of value == 1) ≡ value
bit_of_test true = refl
bit_of_test false = refl

-- A flag that was written, as a lane.
flag-Sets :
    {t : BitsType} (lhs i : ℕ) (value : Bool) {result : Option ℕ}
    (s : Sets t result (λ j. if j == i then bit_of value else digit lhs j))
    → (j : ℕ) → j < width t
    → (digit s.out j == 1) ≡ set_lane i value (λ j. digit lhs j == 1) j
flag-Sets lhs i value s j h = ap (λ (d : ℕ). d == 1) (s.stored j h) ∙ chosen (j == i)
  where
    chosen :
        (b : Bool)
        → ((if b then bit_of value else digit lhs j) == 1) ≡ (if b then value else digit lhs j == 1)
    chosen true = bit_of_test value
    chosen false = refl

pub record KeepSet (n i : ℕ) (value : Bool) (bus : SignalBus) : Type 0 where
  pub out : SignalBus
  pub returns : set_tkeep n i value bus ≡ some out
  pub in_step : IsInStep n out
  pub lanes : (j : ℕ) → j < n → keep_lane out j ≡ set_lane i value (keep_lane bus) j
  pub same_data : out.m_tdata ≡ bus.m_tdata
  pub strb : out.m_tstrb ≡ bus.m_tstrb

pub set_tkeep-KeepSet :
    (n i : ℕ) (value : Bool) (bus : SignalBus) → i < n → IsInStep n bus → KeepSet n i value bus
set_tkeep-KeepSet n i value bus h s =
    let typed = bits_type-Typed n (omega arith) in
    let set =
      set_bool-Sets typed.t bus.m_tkeep i value (omega (arith, typed.wide))
        (typed.holds_of bus.m_tkeep s.tkeep_holds) in
    record {
      out = record bus { m_tkeep = set.out; tkeep = send set.out bus.tkeep };
      returns = unfold set_tkeep in rw (typed.chosen, set.returns) refl;
      in_step = record {
        tdata_follows = s.tdata_follows;
        tkeep_follows = unfold send in refl;
        tstrb_follows = s.tstrb_follows;
        tkeep_holds = typed.below_two set.out set.holds;
        tstrb_holds = s.tstrb_holds;
      };
      lanes = λ j lt. flag-Sets bus.m_tkeep i value set j (omega (arith, typed.wide));
      same_data = refl;
      strb = refl;
    }

pub record StrbSet (n i : ℕ) (value : Bool) (bus : SignalBus) : Type 0 where
  pub out : SignalBus
  pub returns : set_tstrb n i value bus ≡ some out
  pub in_step : IsInStep n out
  pub lanes : (j : ℕ) → j < n → strb_lane out j ≡ set_lane i value (strb_lane bus) j
  pub same_data : out.m_tdata ≡ bus.m_tdata
  pub keep : out.m_tkeep ≡ bus.m_tkeep

pub set_tstrb-StrbSet :
    (n i : ℕ) (value : Bool) (bus : SignalBus) → i < n → IsInStep n bus → StrbSet n i value bus
set_tstrb-StrbSet n i value bus h s =
    let typed = bits_type-Typed n (omega arith) in
    let set =
      set_bool-Sets typed.t bus.m_tstrb i value (omega (arith, typed.wide))
        (typed.holds_of bus.m_tstrb s.tstrb_holds) in
    record {
      out = record bus { m_tstrb = set.out; tstrb = send set.out bus.tstrb };
      returns = unfold set_tstrb in rw (typed.chosen, set.returns) refl;
      in_step = record {
        tdata_follows = s.tdata_follows;
        tkeep_follows = s.tkeep_follows;
        tstrb_follows = unfold send in refl;
        tkeep_holds = s.tkeep_holds;
        tstrb_holds = typed.below_two set.out set.holds;
      };
      lanes = λ j lt. flag-Sets bus.m_tstrb i value set j (omega (arith, typed.wide));
      same_data = refl;
      keep = refl;
    }
