-- ===== src/Axi4/Stream/SignalBus/Shown.antt =====
-- What a lane that was driven shows after the update of the signals, on include/logic/axi4/stream/bus_if.hpp.
use logic.Base.{
  ℕ, ◌*◌, ◌/◌, ◌%◌, ◌^◌, ◌<◌, ◌≤◌, ◌≡◌, ap, ◌∙◌, Bool, Option, some, none, arith, ◌==◌, ◌⊎◌, ◌>>=◌,
}
use logic.Bits.Digit.{digit}
use logic.Utils.Fields.{
  bits_type-Typed, get_bool_lem, get_uint8_lem, get_bool_undefined, bits_type_middle,
}
use logic.Axi4.Stream.BusIf.{set_lane}
use logic.Axi4.Stream.SignalBus.{
  SignalBus, update_bus, update, get_tdata, set_tdata, get_tkeep, set_tkeep, get_tstrb, set_tstrb,
}
use logic.Axi4.Stream.SignalBus.Lanes.{
  IsInStep, data_lane, keep_lane, strb_lane, set_tdata-DataSet, set_tkeep-KeepSet,
  set_tstrb-StrbSet,
}

-- A flag of a lane is read back from the lower 32 lanes, and from all if there are more than 64.
abbrev pub IsRead : ℕ → ℕ → Type 0
IsRead n j = (j < 32) ⊎ (64 < n)

get_tdata-update :
    (n j : ℕ) (bus : SignalBus)
    → j < n
    → IsInStep n bus
    → get_tdata n j (update_bus bus) ≡ some (data_lane bus j)
unfolding get_tdata update_bus update
get_tdata-update n j bus h s =
    let typed = bits_type-Typed (n * 8) (omega arith) in
    rw (typed.chosen, get_uint8_lem typed.t bus.tdata.next (8 * j) (omega (arith, typed.wide)))
      (ap (λ (x : ℕ). some (x / 2 ^ (8 * j) % 256)) s.tdata_follows)

get_tkeep-update :
    (n j : ℕ) (bus : SignalBus)
    → j < n
    → IsRead n j
    → IsInStep n bus
    → get_tkeep n j (update_bus bus) ≡ some (keep_lane bus j)
unfolding get_tkeep update_bus update
get_tkeep-update n j bus h r s =
    let typed = bits_type-Typed n (omega arith) in
    rw (typed.chosen, get_bool_lem typed.t bus.tkeep.next j (typed.readable j h r))
      (ap (λ (x : ℕ). some (digit x j == 1)) s.tkeep_follows)

get_tstrb-update :
    (n j : ℕ) (bus : SignalBus)
    → j < n
    → IsRead n j
    → IsInStep n bus
    → get_tstrb n j (update_bus bus) ≡ some (strb_lane bus j)
unfolding get_tstrb update_bus update
get_tstrb-update n j bus h r s =
    let typed = bits_type-Typed n (omega arith) in
    rw (typed.chosen, get_bool_lem typed.t bus.tstrb.next j (typed.readable j h r))
      (ap (λ (x : ℕ). some (digit x j == 1)) s.tstrb_follows)

-- The three writes of a lane, in the order of `rx_driver`.
abbrev pub drive_lane : ℕ → ℕ → Bool → Bool → ℕ → SignalBus → Option SignalBus
drive_lane n i keep strb byte bus = do
  kept ← set_tkeep n i keep bus
  strobed ← set_tstrb n i strb kept
  set_tdata n i byte strobed

pub record LaneDriven (n i : ℕ) (keep strb : Bool) (byte : ℕ) (bus : SignalBus) : Type 0 where
  pub out : SignalBus
  pub returns : drive_lane n i keep strb byte bus ≡ some out
  pub in_step : IsInStep n out
  pub tdata :
      (j : ℕ) → j < n → get_tdata n j (update_bus out) ≡ some (set_lane i byte (data_lane bus) j)
  pub tkeep :
      (j : ℕ)
      → j < n
      → IsRead n j
      → get_tkeep n j (update_bus out) ≡ some (set_lane i keep (keep_lane bus) j)
  pub tstrb :
      (j : ℕ)
      → j < n
      → IsRead n j
      → get_tstrb n j (update_bus out) ≡ some (set_lane i strb (strb_lane bus) j)

-- On a bus over signals that are in step with the values collected so far, the three writes of one
-- lane, `set_tkeep`, `set_tstrb` and `set_tdata`, return for every lane of the bus and every byte,
-- keep the signals in step, and after the next update every lane reads as on the abstract bus: the
-- written lane as written, the others as collected before; `tkeep` and `tstrb` are read back for
-- the first 32 lanes, or for all if the bus has more than 64.
pub drive_lane-LaneDriven :
    (n i : ℕ) (keep strb : Bool) (byte : ℕ) (bus : SignalBus)
    → i < n
    → byte < 256
    → IsInStep n bus
    → LaneDriven n i keep strb byte bus
drive_lane-LaneDriven n i keep strb byte bus h b s =
    let one = set_tkeep-KeepSet n i keep bus h s in
    let two = set_tstrb-StrbSet n i strb one.out h one.in_step in
    let three = set_tdata-DataSet n i byte two.out h b two.in_step in
    record {
      out = three.out;
      returns = rw (one.returns, two.returns) three.returns;
      in_step = three.in_step;
      tdata = λ j lt.
          get_tdata-update n j three.out lt three.in_step
          ∙ ap some (
              three.lanes j lt
              ∙ ap (λ (x : ℕ). set_lane i byte (λ k. x / 2 ^ (8 * k) % 256) j)
                  (two.same_data ∙ one.same_data));
      tkeep = λ j lt r.
          get_tkeep-update n j three.out lt r three.in_step
          ∙ ap some (ap (λ (x : ℕ). digit x j == 1) (three.keep ∙ two.keep) ∙ one.lanes j lt);
      tstrb = λ j lt r.
          get_tstrb-update n j three.out lt r three.in_step
          ∙ ap some (
              ap (λ (x : ℕ). digit x j == 1) three.strb
              ∙ two.lanes j lt
              ∙ ap (λ (x : ℕ). set_lane i strb (λ k. digit x k == 1) j) one.strb);
    }

-- On a bus of 33 to 64 lanes, `get_tkeep` and `get_tstrb` are undefined for every lane from the
-- 33rd on.
flags_undefined :
    (n j : ℕ) (bus : SignalBus)
    → 32 ≤ j
    → j < n
    → n ≤ 64
    → (get_tkeep n j bus ≡ none) × (get_tstrb n j bus ≡ none)
unfolding get_tkeep get_tstrb
flags_undefined n j bus low h high = (
  rw (bits_type_middle n (omega arith) high) (get_bool_undefined bus.tkeep.current j low),
  rw (bits_type_middle n (omega arith) high) (get_bool_undefined bus.tstrb.current j low),
)
