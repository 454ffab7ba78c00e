-- ===== src/Axi4/Stream/RxDriver/Progress.antt =====
-- That the loop of `data_transfer` of src/logic/axi4/stream/rx_driver.cpp ends.
use logic.Base.{
  suc-==-zero, ℕ, zero, suc, ◌+◌, ◌-◌, ◌*◌, ◌≤◌, ◌<◌, ◌≡◌, refl, subst, Bool, true, false, ◌&&◌,
  List, [], ◌∷◌, arith, length, leb, if◌then◌else◌, if-cases, leb-false, ◌==◌, inl, inr, ◌⊎◌,
}
use logic.Axi4.Stream.TdataByte.{TdataByte}
use logic.Axi4.Stream.BusIf.{BusIf, Widths}
use logic.Axi4.Stream.RxDriver.{
  RxItem, RxState, Edge, at_edge, start, data_transfer, turn, when_ready, when_waiting,
  drive_transfer, drive_lanes, drive_byte,
}
use logic.Axi4.Stream.RxDriver.Lanes.{get_elem?-drop, step_some, step_none}
use logic.Axi4.Stream.RxDriver.Delivery.{outcome}

-- The edges at which the receiver is ready.
abbrev pub ready_edges : List Edge → ℕ
ready_edges [] = 0
ready_edges (edge ∷ edges) = if edge.tready then suc (ready_edges edges) else ready_edges edges

-- The loop over the lanes never goes back in the item.
drive_lanes_mono :
    (tdata : List TdataByte) (left i index : ℕ) (vif : BusIf)
    → index ≤ (drive_lanes tdata left i index vif).0
drive_lanes_mono tdata zero i index vif = unfold drive_lanes in omega arith
drive_lanes_mono tdata (suc left) i index vif = elim (get_elem?-drop tdata index) [
  | inl (e, d, l) ↦
      rw (step_none tdata left i index vif e) (drive_lanes_mono tdata left (suc i) index _)
  | inr (b, e, d, l) ↦
      let further = drive_lanes_mono tdata left (suc i) (suc index) (drive_byte i b vif) in
      rw (step_some tdata left i index vif b e) (omega arith)
]

-- A transfer takes at least one byte.
drive_lanes_further :
    (tdata : List TdataByte) (left i index : ℕ) (vif : BusIf)
    → index < length tdata
    → index < (
        if left == 0
        then (drive_lanes tdata left i index vif).0 + 1
        else (drive_lanes tdata left i index vif).0)
drive_lanes_further tdata zero i index vif h = unfold drive_lanes in ground arith
drive_lanes_further tdata (suc left) i index vif h = elim (get_elem?-drop tdata index) [
  | inl (e, d, l) ↦ absurd (omega arith)
  | inr (b, e, d, l) ↦
      rw (step_some tdata left i index vif b e, suc-==-zero left)
        (drive_lanes_mono tdata left (suc i) (suc index) (drive_byte i b vif))
]

mul_mono : (a b m : ℕ) → a ≤ b → a * m ≤ b * m
mul_mono a b zero h = omega arith
mul_mono a b (suc m) h = let rest = mul_mono a b m h in omega arith

-- One transfer less, and at most `most` idle edges before the next.
less_left :
    (total index index' idle idle' most : ℕ)
    → index < total
    → index < index'
    → idle' ≤ most
    → (total - index') * suc most + idle' + 1 < (total - index) * suc most + idle + 1
less_left total index index' idle idle' most l further bound =
    let transfers = mul_mono (suc (total - index')) (total - index) (suc most) (omega arith) in
    sum (total - index') (total - index) transfers
  where
    sum :
        (a b : ℕ)
        → suc a * suc most ≤ b * suc most
        → a * suc most + idle' + 1 < b * suc most + idle + 1
    sum a b h = omega arith

module _ (widths : Widths) (random_idle : ℕ → ℕ) (most : ℕ) (drawn : (k : ℕ) → random_idle k ≤ most)
    (item : RxItem) (bus_size : ℕ) where
  -- The ready edges that the loop still needs at most before it is left.
  abbrev left_of : RxState → ℕ
  left_of s = (length item.tdata - s.index) * suc most + s.idle + 1

  -- Either the loop is left at its next edge, or at most `n` ready edges are needed for that.
  abbrev Nearer : ℕ → RxState → Type 0
  Nearer n s = (s.is_running ≡ false) ⊎ (left_of s ≤ n)

  drive_transfer-Nearer :
      (s : RxState)
      → s.index < length item.tdata
      → left_of (drive_transfer widths random_idle item bus_size s) < left_of s
  unfolding drive_transfer
  drive_transfer-Nearer s l =
      less_left (length item.tdata) s.index _ s.idle _ most l
        (drive_lanes_further item.tdata bus_size 0 s.index s.vif l) (drawn s.draws)

  when_ready-Nearer :
      (s : RxState) (n : ℕ)
      → left_of s ≤ suc n
      → Nearer n (when_ready widths random_idle item bus_size s)
  unfolding when_ready
  when_ready-Nearer s n h =
      if-cases (Nearer n) (leb (length item.tdata) s.index) _ _ (λ e. inl refl)
        (λ e.
          if-cases (Nearer n) (s.idle == 0) _ _
            (λ i. inr (below _ _ n (drive_transfer-Nearer _ (leb-false _ _ e)) h))
            (λ i. inr (one_idle _ s.idle n (positive s.idle i) h)))
    where
      below : (a b n : ℕ) → a < b → b ≤ suc n → a ≤ n
      below a b n h k = omega arith

      positive : (n : ℕ) → (n == 0) ≡ false → 0 < n
      positive n h = ground arith

      one_idle : (a b n : ℕ) → 0 < b → a + b + 1 ≤ suc n → a + (b - 1) + 1 ≤ n
      one_idle a b n p h = omega arith

  when_waiting-Nearer :
      (s : RxState) (n : ℕ)
      → left_of s ≤ n
      → Nearer n (when_waiting widths random_idle item bus_size s)
  unfolding when_waiting
  when_waiting-Nearer s n h =
      if-cases (Nearer n) (item.timeout == 0) _ _ (λ e. inr h)
        (λ e. if-cases (Nearer n) (s.timeout == 0) _ _ (λ i. inl refl) (λ i. inr h))

  -- What is enough for the loop to be left among the given edges.
  abbrev Ends : List Edge → RxState → Type 0
  Ends edges s = ((s.is_running ≡ false) × (0 < length edges)) ⊎ (left_of s < ready_edges edges)

  ready_edges-le : (edges : List Edge) → ready_edges edges ≤ length edges
  ready_edges-le [] = omega arith
  ready_edges-le (edge ∷ edges) =
      let rest = ready_edges-le edges in
      if-cases (λ n. n ≤ suc (length edges)) edge.tready _ _ (λ e. omega arith) (λ e. omega arith)

  by_ready_edges :
      (edges : List Edge) (s : RxState) (n : ℕ) → n < ready_edges edges → Nearer n s → Ends edges s
  by_ready_edges edges s n h (inl stopped) =
      let many = ready_edges-le edges in inl (stopped, omega arith)
  by_ready_edges edges s n h (inr near) = inr (omega arith)

  turn-Ends :
      (areset_n tready : Bool) (edges : List Edge) (s : RxState)
      → left_of s < ready_edges (record { areset_n = areset_n; tready = tready } ∷ edges)
      → Ends edges (
          turn widths random_idle item bus_size (record { areset_n = areset_n; tready = tready }) s)
  unfolding turn
  turn-Ends areset_n true edges s h =
      let s' : RxState = record s {
        vif = at_edge (record { areset_n = areset_n; tready = true }) s.vif;
      } in
      by_ready_edges edges (when_ready widths random_idle item bus_size s') (ready_edges edges - 1)
        (omega arith) (when_ready-Nearer s' (ready_edges edges - 1) (omega arith))
  turn-Ends areset_n false edges s h =
      let s' : RxState = record s {
        vif = at_edge (record { areset_n = areset_n; tready = false }) s.vif;
      } in
      by_ready_edges edges (when_waiting widths random_idle item bus_size s') (left_of s) h
        (when_waiting-Nearer s' (left_of s) (omega arith))

  data_transfer-returns :
      (edges : List Edge) (s : RxState)
      → Ends edges s
      → (data_transfer widths random_idle item bus_size edges s).1 ≡ true
  unfolding data_transfer
  data_transfer-returns [] s (inl (stopped, h)) = absurd (omega arith)
  data_transfer-returns [] s (inr h) = absurd (omega arith)
  data_transfer-returns (edge ∷ edges) s (inl (stopped, h)) = rw stopped refl
  data_transfer-returns (edge ∷ edges) s (inr h) =
      if-cases {A = RxState × Bool × List BusIf} (λ run. run.1 ≡ true)
        (s.is_running && edge.areset_n) _ _
        (λ e. data_transfer-returns edges _ (turn-Ends edge.areset_n edge.tready edges s h))
        (λ e. refl)

  -- When no random number is above `most`, `data_transfer` returns within edges of which more
  -- than `(length tdata + 1) * (most + 1)` are ready ones, however many others are between them
  -- and whatever the reset does.
  pub rx_returns :
      (vif : BusIf) (draws : ℕ) (edges : List Edge)
      → suc (length item.tdata) * suc most < ready_edges edges
      → (outcome widths random_idle item bus_size vif draws edges).1 ≡ true
  unfolding start
  rx_returns vif draws edges h =
      let first = drawn draws in
      data_transfer-returns edges _ (inr (enough (length item.tdata) (random_idle draws) first h))
    where
      whole : (total : ℕ) → total ≡ total - 0
      whole total = omega arith

      bound :
          (total idle : ℕ)
          → idle ≤ most
          → suc total * suc most < ready_edges edges
          → total * suc most + idle + 1 < ready_edges edges
      bound total idle b h = omega arith

      enough :
          (total idle : ℕ)
          → idle ≤ most
          → suc total * suc most < ready_edges edges
          → (total - 0) * suc most + idle + 1 < ready_edges edges
      enough total idle b h =
          subst (λ r. r * suc most + idle + 1 < ready_edges edges) (whole total)
            (bound total idle b h)
