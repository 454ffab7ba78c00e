-- ===== src/Axi4/Stream/RxDriver/Finishes.antt =====
-- That `run_phase` of src/logic/axi4/stream/rx_driver.cpp serves all items: each call uses no more than a
-- bounded number of the edges at which the receiver is ready.
use mathlib.Core.Bool.{false≢true}
use logic.Base.{
  Bool-cases, ==_iff, ℕ, suc, ◌+◌, ◌-◌, ◌*◌, ◌≤◌, ◌≡◌, refl, sym, subst, ◌∙◌, Bool, true, ◌&&◌,
  List, [], ◌∷◌, ◌++◌, arith, length, ◌==◌, length-append, inl, inr,
}
use logic.Axi4.Stream.BusIf.{BusIf, Widths}
use logic.Axi4.Stream.Items.{ItemType, data_item, idle_item}
use logic.Axi4.Stream.RxDriver.{RxItem, RxState, Edge, start, turn, data_transfer}
use logic.Axi4.Stream.RxDriver.Delivery.{outcome}
use logic.Axi4.Stream.RxDriver.Progress.{ready_edges, rx_returns}
use logic.Axi4.Stream.RxDriver.Idle.{
  IdleState, idle_start, idle_turn, idle_transfer, stopped, rx_idles,
}
use logic.Axi4.Stream.RxDriver.Cuts.{
  cut, ready_edges-drop, count_ready-map, readies, readies-append, length-readies,
}
use logic.Axi4.Stream.RxDriver.RunPhase.{Served, serve, serve_data, serve_idle, rx_run_phase}

module _ (widths : Widths) (random_idle : ℕ → ℕ) (item : RxItem) (bus_size : ℕ) where
  abbrev run : List Edge → RxState → RxState × Bool × List BusIf
  run edges s = data_transfer widths random_idle item bus_size edges s

  -- A run that has returned is not changed by more edges.
  run-more :
      (first rest : List Edge) (s : RxState)
      → (run first s).1 ≡ true
      → run (first ++ rest) s ≡ run first s
  unfolding data_transfer
  run-more [] rest s h = absurd (false≢true h)
  run-more (edge ∷ first) rest s h = elim (Bool-cases (s.is_running && edge.areset_n)) [
    | inl e ↦
        rw (e, run-more first rest (turn widths random_idle item bus_size edge s) (rw e at h)) refl
    | inr e ↦ rw e refl
  ]

  length-run : (edges : List Edge) (s : RxState) → length (run edges s).2 ≤ length edges
  unfolding data_transfer
  length-run [] s = omega arith
  length-run (edge ∷ edges) s = elim (Bool-cases (s.is_running && edge.areset_n)) [
    | inl e ↦
        let shorter = length-run edges (turn widths random_idle item bus_size edge s) in
        rw e (longer shorter)
    | inr e ↦ rw e (omega arith)
  ]
    where
      longer : {a b : ℕ} → a ≤ b → suc a ≤ suc b
      longer h = omega (arith, h)

  idle-more :
      (first rest : List Bool) (s : IdleState)
      → (idle_transfer random_idle item first s).1 ≡ true
      → idle_transfer random_idle item (first ++ rest) s ≡ (
        (idle_transfer random_idle item first s).0,
        true,
        (idle_transfer random_idle item first s).2 ++ rest,
      )
  unfolding idle_transfer
  idle-more [] rest s h = stopped random_idle item rest s ((==_iff s.idle 0).0 h)
  idle-more (tready ∷ first) rest s h = elim (Bool-cases (s.idle == 0)) [
    | inl e ↦ rw e refl
    | inr e ↦ rw (e, idle-more first rest (idle_turn random_idle item tready s) (rw e at h)) refl
  ]

  -- A call that has returned within the first edges leaves the rest.
  abbrev Leaves : Served → ℕ → Type 0
  Leaves served rest = (served.returned ≡ true) × (rest ≤ ready_edges served.left)

  data-Leaves :
      (first rest : List Edge) (vif : BusIf) (draws : ℕ)
      → (outcome widths random_idle item bus_size vif draws first).1 ≡ true
      → Leaves
          (serve_data widths random_idle bus_size item (first ++ rest) vif draws)
          (ready_edges rest)
  unfolding serve_data
  data-Leaves first rest vif draws h =
      let s = start widths random_idle item bus_size vif draws in
      rw (run-more first rest s h)
        (h, ready_edges-drop (length (run first s).2) first rest (length-run first s))

  idle-Leaves :
      (first rest : List Edge) (vif : BusIf) (draws : ℕ)
      → (idle_transfer random_idle item (readies first) (idle_start random_idle item draws)).1
        ≡ true
      → Leaves
          (serve_idle widths random_idle bus_size item (first ++ rest) vif draws)
          (ready_edges rest)
  unfolding serve_idle
  idle-Leaves first rest vif draws h =
      let s = idle_start random_idle item draws in
      let unused = (idle_transfer random_idle item (readies first) s).2 in
      rw (readies-append first rest, idle-more (readies first) (readies rest) s h)
        (
          refl,
          ready_edges-drop (length (first ++ rest) - length (unused ++ readies rest)) first rest (
              omega (
                arith,
                length-append first rest,
                length-append unused (readies rest),
                length-readies rest,
              )),
        )

module _ (widths : Widths) (random_idle : ℕ → ℕ) (most : ℕ) (drawn : (k : ℕ) → random_idle k ≤ most)
    (bus_size : ℕ) where
  -- The ready edges that are enough for an item, of either type, and for a sequence.
  abbrev pub edges_for : RxItem → ℕ
  edges_for item = suc (length item.tdata) * suc most + 1

  abbrev pub edges_for_all : List RxItem → ℕ
  edges_for_all [] = 0
  edges_for_all (item ∷ items) = edges_for item + edges_for_all items

  serve-Leaves :
      (type : ItemType) (item : RxItem) (first rest : List Edge) (vif : BusIf) (draws : ℕ)
      → ready_edges first ≡ edges_for item
      → Leaves widths random_idle item bus_size
          (serve widths random_idle bus_size type item (first ++ rest) vif draws)
          (ready_edges rest)
  unfolding serve
  serve-Leaves data_item item first rest vif draws h =
      data-Leaves widths random_idle item bus_size first rest vif draws
        (rx_returns widths random_idle most drawn item bus_size vif draws first (omega (arith, h)))
  serve-Leaves idle_item item first rest vif draws h =
      idle-Leaves widths random_idle item bus_size first rest vif draws
        (rx_idles random_idle item draws (readies first) (
          enough (length item.tdata) (random_idle draws) (drawn draws)
            (count_ready-map first ∙ h))).0
    where
      enough :
          (bytes idle : ℕ) {count : ℕ}
          → idle ≤ most
          → count ≡ suc bytes * suc most + 1
          → idle ≤ count
      enough bytes idle b h = ground (arith, b, h)

  -- When no random number is above `most`, `run_phase` serves a whole sequence of items of both
  -- types, and stops for the next one, within edges of which at least `(length tdata + 1) * (most
  -- + 1) + 1` for each item are ready ones, however many others are between them and whatever the
  -- reset does.
  pub rx_finishes :
      (items : List RxItem) (edges : List Edge) (vif : BusIf) (draws : ℕ)
      → edges_for_all items ≤ ready_edges edges
      → (rx_run_phase widths random_idle bus_size items edges vif draws).finished ≡ true
  unfolding rx_run_phase
  rx_finishes [] edges vif draws h = refl
  rx_finishes (item ∷ items) edges vif draws h =
      let c = cut edges (edges_for item) (omega (arith, h)) in
      let (returned, left) =
        subst
          (λ e.
            Leaves widths random_idle item bus_size
              (serve widths random_idle bus_size item.type item e vif draws) (ready_edges c.rest))
          (sym c.whole) (serve-Leaves item.type item c.first c.rest vif draws c.first_ready) in
      let s = serve widths random_idle bus_size item.type item edges vif draws in
      rw returned (rx_finishes items s.left s.vif s.draws (omega (arith, h, left, c.rest_ready)))
