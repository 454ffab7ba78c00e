-- ===== src/Axi4/Stream/RxDriver/Idle.antt =====
-- src/logic/axi4/stream/rx_driver.cpp, `idle_transfer`: lets a drawn number of ready edges pass.
use logic.Base.{
  ℕ, suc, ◌+◌, ◌-◌, ◌≤◌, ◌≡◌, refl, ap, ◌∙◌, Bool, true, false, List, [], ◌∷◌, arith, if◌then◌else◌,
  if-cases, ◌==◌, ==_iff, ◌⊎◌, inl, inr,
}
use logic.Axi4.Stream.RxDriver.{RxItem}

-- The local variables, and whether the time-out was reported.
pub record IdleState : Type 0 where
  pub idle : ℕ
  pub timeout : ℕ
  pub timed_out : Bool

module _ (random_idle : ℕ → ℕ) (item : RxItem) where
  unfoldable pub idle_start : ℕ → IdleState
  idle_start draws = record { idle = random_idle draws; timeout = item.timeout; timed_out = false }

  -- One turn of the loop, by `tready`.
  unfoldable pub idle_turn : Bool → IdleState → IdleState
  idle_turn tready s =
      if tready
      then record s { idle = s.idle - 1 }
      else if item.timeout == 0
      then s
      else if s.timeout == 0
      then record s { idle = 0; timed_out = true }
      else record s { timeout = s.timeout - 1 }

  -- The loop over what `tready` is at the edges: the state it leaves, whether it has returned, and the
  -- edges that it has not used.
  unfoldable pub idle_transfer : List Bool → IdleState → IdleState × Bool × List Bool
  idle_transfer [] s = (s, s.idle == 0, [])
  idle_transfer (tready ∷ edges) s =
      let rest = idle_transfer edges (idle_turn tready s) in
      if s.idle == 0 then (s, true, tready ∷ edges) else rest

-- The edges at which the receiver is ready.
abbrev pub count_ready : List Bool → ℕ
count_ready [] = 0
count_ready (tready ∷ edges) = if tready then suc (count_ready edges) else count_ready edges

module _ (random_idle : ℕ → ℕ) (item : RxItem) where
  abbrev Outcome : ℕ → List Bool → IdleState × Bool × List Bool → Type 0
  Outcome idle edges run =
      (run.1 ≡ true) × ((run.0.timed_out ≡ true) ⊎ (count_ready edges ≡ idle + count_ready run.2))

  pub stopped :
      (edges : List Bool) (s : IdleState)
      → s.idle ≡ 0
      → idle_transfer random_idle item edges s ≡ (s, true, edges)
  unfolding idle_transfer
  stopped [] s h = ap (λ (i : ℕ). let r : IdleState × Bool × List Bool = (s, i == 0, []) in r) h
  stopped (tready ∷ edges) s h =
      ap
        (λ (i : ℕ).
          let r : IdleState × Bool × List Bool =
            if i == 0
            then (s, true, tready ∷ edges)
            else idle_transfer random_idle item edges (idle_turn random_idle item tready s) in
          r)
        h

  late :
      (idle : ℕ) (edges : List Bool) (s : IdleState)
      → s.idle ≡ 0
      → s.timed_out ≡ true
      → Outcome idle edges (idle_transfer random_idle item edges s)
  late idle edges s h t = (
    ap (λ run. run.1) (stopped edges s h),
    inl (ap (λ run. run.0.timed_out) (stopped edges s h) ∙ t),
  )

  idles :
      (edges : List Bool) (s : IdleState)
      → s.idle ≤ count_ready edges
      → Outcome s.idle edges (idle_transfer random_idle item edges s)
  unfolding idle_transfer idle_turn
  idles [] s h = (none_left s.idle h, inr (counted s.idle h))
    where
      none_left : (i : ℕ) → i ≤ 0 → (i == 0) ≡ true
      none_left i h = ground arith

      counted : (i : ℕ) → i ≤ 0 → 0 ≡ i + 0
      counted i h = omega arith
  idles (true ∷ edges) s h =
      if-cases (Outcome s.idle (true ∷ edges)) (s.idle == 0) _ _
        (λ e. let none_left = (==_iff s.idle 0).0 e in (refl, inr (omega arith)))
        (λ e.
          let next : IdleState = record s { idle = s.idle - 1 } in
          let (returned, used) = idles edges next (omega arith) in
          (
            returned,
            elim used [
              | inl timed_out ↦ inl timed_out
              | inr same ↦ inr (one_more s.idle _ _ (positive s.idle e) same)
            ],
          ))
    where
      positive : (i : ℕ) → (i == 0) ≡ false → 1 ≤ i
      positive i h = ground arith

      one_more : (i used unused : ℕ) → 1 ≤ i → used ≡ i - 1 + unused → suc used ≡ i + unused
      one_more i used unused p e = omega arith
  idles (false ∷ edges) s h =
      if-cases (Outcome s.idle (false ∷ edges)) (s.idle == 0) _ _
        (λ e. let none_left = (==_iff s.idle 0).0 e in (refl, inr (omega arith)))
        (λ e.
          if-cases (λ next. Outcome s.idle edges (idle_transfer random_idle item edges next))
            (item.timeout == 0) _ _ (λ t. idles edges s h)
            (λ t.
              if-cases (λ next. Outcome s.idle edges (idle_transfer random_idle item edges next))
                (s.timeout == 0) _ _
                (λ u. late s.idle edges (record s { idle = 0; timed_out = true }) refl refl)
                (λ u. idles edges (record s { timeout = s.timeout - 1 }) h)))

  -- When at least as many of the edges are ready ones as the drawn number, `idle_transfer`
  -- returns, and, unless it reported its time-out, it has used exactly that many ready edges.
  pub rx_idles :
      (draws : ℕ) (edges : List Bool)
      → random_idle draws ≤ count_ready edges
      → ((idle_transfer random_idle item edges (idle_start random_idle item draws)).1 ≡ true)
        × (((idle_transfer random_idle item edges (idle_start random_idle item draws)).0.timed_out
              ≡ true)
            ⊎ (count_ready edges
                ≡ random_idle draws
                  + count_ready
                      (idle_transfer random_idle item edges (idle_start random_idle item draws)).2))
  rx_idles draws edges h = unfold idle_start in idles edges (idle_start random_idle item draws) h
