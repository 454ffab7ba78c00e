-- ===== src/Axi4/Stream/Link/Sequence.antt =====
-- A whole sequence of items on one bus: `run_phase` of src/logic/axi4/stream/rx_driver.cpp against that
-- of src/logic/axi4/stream/monitor.cpp.
use mathlib.Core.Bool.{false≢true}
use logic.Base.{
  ℕ, ◌<◌, ◌≡◌, refl, ap, ◌∙◌, Bool, true, false, ◌||◌, none, List, [], ◌∷◌, ◌++◌, map, All,
  if-cases,
}
use logic.Axi4.Stream.BusIf.{BusIf, Widths}
use logic.Axi4.Stream.Items.{ItemType}
use logic.Axi4.Stream.Monitor.{run_phase, lanes_of}
use logic.Axi4.Stream.Monitor.Laws.{Collected, collected, observed, reassemble, monitor_reassembles}
use logic.Axi4.Stream.RxDriver.{RxItem, Edge}
use logic.Axi4.Stream.RxDriver.RunPhase.{Served, Ran, serve, rx_run_phase}
use logic.Axi4.Stream.Link.{lanes}
use logic.Axi4.Stream.Link.Adds.{with_item, observed-append, Adds, serve-Adds}

or_left : (a b : Bool) → (a || b) ≡ false → a ≡ false
or_left true b h = h
or_left false b h = refl

or_right : (a b : Bool) → (a || b) ≡ false → b ≡ false
or_right true b h = cc
or_right false b h = h

abbrev pub packets_of_items : Widths → ℕ → List RxItem → List Collected
packets_of_items widths bus_size [] = []
packets_of_items widths bus_size (item ∷ items) =
    with_item widths bus_size item.type item (packets_of_items widths bus_size items)

module _ (widths : Widths) (random_idle : ℕ → ℕ) (bus_size : ℕ) where
  joins :
      (type : ItemType) (item : RxItem) (s : Served) (seen : List BusIf) {packets : List Collected}
      → Adds widths random_idle bus_size type item s
      → reassemble none (observed bus_size seen) ≡ packets
      → reassemble none (observed bus_size (s.seen ++ seen))
        ≡ with_item widths bus_size type item packets
  joins type item s seen one e =
      ap (reassemble none) (observed-append bus_size s.seen seen)
      ∙ one.events (observed bus_size seen)
      ∙ ap (with_item widths bus_size type item) e

  abbrev InTime : Ran → Type 0
  InTime run = (run.finished ≡ true) × (run.timed_out ≡ false)

  run-reassembles :
      (items : List RxItem) (edges : List Edge) (vif : BusIf) (draws : ℕ)
      → 0 < bus_size
      → vif.tvalid ≡ false
      → All (λ e. e.areset_n ≡ true) edges
      → InTime (rx_run_phase widths random_idle bus_size items edges vif draws)
      → reassemble none
          (observed bus_size (rx_run_phase widths random_idle bus_size items edges vif draws).seen)
        ≡ packets_of_items widths bus_size items
  unfolding rx_run_phase
  run-reassembles [] edges vif draws positive idle no_reset in_time = refl
  run-reassembles (item ∷ items) edges vif draws positive idle no_reset in_time =
      if-cases
        (λ (run : Ran).
          InTime run
          → reassemble none (observed bus_size run.seen)
            ≡ packets_of_items widths bus_size (item ∷ items))
        (serve widths random_idle bus_size item.type item edges vif draws).returned _ _
        (λ returned in_time.
          let one =
            serve-Adds widths random_idle bus_size item edges vif draws idle no_reset item.type
              positive returned (or_left _ _ in_time.1) in
          joins item.type item (serve widths random_idle bus_size item.type item edges vif draws) _
            one
            (run-reassembles items _ _ _ positive one.quiet one.calm
              (in_time.0, or_right _ _ in_time.1)))
        (λ returned in_time. absurd (false≢true in_time.0)) in_time

  -- On a bus that has lanes and shows no transfer at the start, a sequence of items of both types
  -- that `rx_driver::run_phase` serves to the end without a time-out or a reset is written by the
  -- monitor as one packet for each item with data, in the order of the items, and nothing else:
  -- each packet has the item's identifiers as the bus shows them, one `tuser` word for each
  -- transfer, and the item's bytes, filled up with null bytes to the fewest whole transfers that
  -- hold them.
  pub run_delivers :
      (items : List RxItem) (edges : List Edge) (vif : BusIf) (draws time : ℕ)
      → 0 < bus_size
      → vif.tvalid ≡ false
      → All (λ e. e.areset_n ≡ true) edges
      → (rx_run_phase widths random_idle bus_size items edges vif draws).finished ≡ true
      → (rx_run_phase widths random_idle bus_size items edges vif draws).timed_out ≡ false
      → map collected
          (run_phase
            (lanes_of bus_size)
            time
            (rx_run_phase widths random_idle bus_size items edges vif draws).seen
            []).1
        ≡ packets_of_items widths bus_size items
  run_delivers items edges vif draws time positive idle no_reset finished on_time =
      ap
        (λ b.
          map collected
            (run_phase b time (rx_run_phase widths random_idle bus_size items edges vif draws).seen
              []).1)
        (lanes bus_size positive)
      ∙ monitor_reassembles bus_size time _
      ∙ run-reassembles items edges vif draws positive idle no_reset (finished, on_time)
