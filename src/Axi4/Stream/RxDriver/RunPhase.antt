-- ===== src/Axi4/Stream/RxDriver/RunPhase.antt =====
-- `run_phase` of src/logic/axi4/stream/rx_driver.cpp: serves the items that the sequencer hands over, one
-- after the other, until none is left.
use logic.Base.{
  ℕ, ◌+◌, ◌-◌, Bool, true, false, ◌||◌, List, [], ◌∷◌, ◌++◌, map, length, take, drop, if◌then◌else◌,
}
use logic.Axi4.Stream.BusIf.{BusIf, Widths}
use logic.Axi4.Stream.Items.{ItemType, data_item, idle_item}
use logic.Axi4.Stream.RxDriver.{RxItem, Edge, at_edge, start, data_transfer}
use logic.Axi4.Stream.RxDriver.Idle.{idle_start, idle_transfer}

-- What serving an item leaves, whether it returned, what the bus showed at the edges until then, and
-- the edges that follow.
pub record Served : Type 0 where
  pub vif : BusIf
  pub draws : ℕ
  pub timed_out : Bool
  pub returned : Bool
  pub seen : List BusIf
  pub left : List Edge

-- What the bus showed while the items were served, whether all were, and whether a time-out was
-- reported.
pub record Ran : Type 0 where
  pub seen : List BusIf
  pub finished : Bool
  pub timed_out : Bool

module _ (widths : Widths) (random_idle : ℕ → ℕ) (bus_size : ℕ) where
  -- An idle item leaves the bus as it is.
  unfoldable pub serve_idle : RxItem → List Edge → BusIf → ℕ → Served
  serve_idle item edges vif draws =
      let (s, returned, unused) =
        idle_transfer random_idle item (map (λ edge. edge.tready) edges)
          (idle_start random_idle item draws) in
      let used = length edges - length unused in
      record {
        vif = vif;
        draws = draws + 1;
        timed_out = s.timed_out;
        returned = returned;
        seen = map (λ edge. at_edge edge vif) (take used edges);
        left = drop used edges;
      }

  unfoldable pub serve_data : RxItem → List Edge → BusIf → ℕ → Served
  serve_data item edges vif draws =
      let (s, returned, seen) =
        data_transfer widths random_idle item bus_size edges
          (start widths random_idle item bus_size vif draws) in
      record {
        vif = s.vif;
        draws = s.draws;
        timed_out = s.timed_out;
        returned = returned;
        seen = seen;
        left = drop (length seen) edges;
      }

  -- The `switch` on the type of the item.
  unfoldable pub serve : ItemType → RxItem → List Edge → BusIf → ℕ → Served
  serve idle_item item edges vif draws = serve_idle item edges vif draws
  serve data_item item edges vif draws = serve_data item edges vif draws

  unfoldable pub rx_run_phase : List RxItem → List Edge → BusIf → ℕ → Ran
  rx_run_phase [] edges vif draws = record { seen = []; finished = true; timed_out = false }
  rx_run_phase (item ∷ items) edges vif draws =
      let s = serve item.type item edges vif draws in
      let rest = rx_run_phase items s.left s.vif s.draws in
      if s.returned
      then record {
        seen = s.seen ++ rest.seen;
        finished = rest.finished;
        timed_out = s.timed_out || rest.timed_out;
      }
      else record { seen = s.seen; finished = false; timed_out = s.timed_out }
