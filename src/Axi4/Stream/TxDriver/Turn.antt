-- ===== src/Axi4/Stream/TxDriver/Turn.antt =====
-- One turn of the loop of `transfer` in src/logic/axi4/stream/tx_driver.cpp.
use logic.Base.{
  ℕ, suc, ◌≡◌, refl, sym, ap, ap₂, ◌∙◌, subst, Bool, true, false, not, ◌&&◌, ◌||◌, some,
  if◌then◌else◌, ◌==◌, Bool-cases, inl, inr, if-cases, ◌⊎◌,
}
use mathlib.Core.Bool.{true≢false}
use logic.Bitstream.Valid.{IsValid}
use logic.Bitstream.Equal.{is_equal_lem}
use logic.Storage.Number.{number}
use logic.Axi4.Stream.Packet.{◌and_then◌}
use logic.Axi4.Stream.BusIf.{BusIf}
use logic.Axi4.Stream.TxDriver.{
  TxItem, TxState, same_ids, accept, count_down, drive_tready, tx_turn,
}

-- The identifiers on the bus are those of the item.
abbrev pub for_item : TxItem → BusIf → Bool
for_item item vif =
    number item.tid.m_bits == number vif.tid.m_bits
    && number item.tdest.m_bits == number vif.tdest.m_bits

-- The last transfer of a packet of the item is taken.
abbrev pub finishes : TxItem → BusIf → Bool
finishes item vif = vif.tready && vif.tvalid && for_item item vif && vif.tlast

abbrev pub HasValidIds : BusIf → Type 0
HasValidIds vif = IsValid vif.tid × IsValid vif.tdest

module _ (random_idle : ℕ → ℕ) (item : TxItem) (tid_valid : IsValid item.tid)
    (tdest_valid : IsValid item.tdest) where
  same_ids_lem :
      (vif : BusIf) → HasValidIds vif → same_ids random_idle item vif ≡ some (for_item item vif)
  unfolding same_ids
  same_ids_lem vif v =
      rw
        (
          is_equal_lem item.tid vif.tid tid_valid v.0,
          is_equal_lem item.tdest vif.tdest tdest_valid v.1,
        )
        (joined _ _)
    where
      joined : (a b : Bool) → (some a and_then some b) ≡ some (a && b)
      joined true b = refl
      joined false b = refl

  -- The state after the check of a transfer that was or was not taken.
  accepted : Bool → BusIf → TxState → TxState
  accepted taken vif s =
      if taken then record s { timeout = item.timeout; is_running = not vif.tlast } else s

  ask :
      (a : Bool) (vif : BusIf)
      → HasValidIds vif
      → (if a then same_ids random_idle item vif else some false) ≡ some (a && for_item item vif)
  ask true vif v = same_ids_lem vif v
  ask false vif v = refl

  taken_now : BusIf → TxState → Bool
  taken_now vif s = (s.is_running && s.tready && vif.tvalid) && for_item item vif

  accept_lem :
      (vif : BusIf) (s : TxState)
      → HasValidIds vif
      → accept random_idle item vif s ≡ some (accepted (taken_now vif s) vif s)
  unfolding accept accepted taken_now
  accept_lem vif s v = rw (ask (s.is_running && s.tready && vif.tvalid) vif v) refl

  pub after_turn : BusIf → TxState → TxState
  after_turn vif s =
      drive_tready random_idle item (count_down random_idle item (accepted (taken_now vif s) vif s))

  pub tx_turn_lem :
      (vif : BusIf) (s : TxState)
      → HasValidIds vif
      → tx_turn random_idle item vif s ≡ some (after_turn vif s)
  unfolding tx_turn after_turn
  tx_turn_lem vif s v = rw (accept_lem vif s v) refl

  -- After `n` packets: none while the loop waits for one, and one after it, when the bus is not ready
  -- any more while the loop still idles.
  unfoldable pub Taken : ℕ → TxState → Type 0
  Taken n s =
      ((s.is_running ≡ true) × (n ≡ 0) × (s.timed_out ≡ false))
      ⊎ ((s.is_running ≡ false) × (s.timed_out ≡ true))
      ⊎ ((s.is_running ≡ false)
          × (n ≡ 1)
          × (s.timed_out ≡ false)
          × ((s.idle ≡ 0) ⊎ (s.tready ≡ false)))

  -- The same within a turn.
  Midway : ℕ → TxState → Type 0
  Midway n s =
      ((s.is_running ≡ true) × (n ≡ 0) × (s.timed_out ≡ false))
      ⊎ ((s.is_running ≡ false) × (s.timed_out ≡ true))
      ⊎ ((s.is_running ≡ false) × (n ≡ 1) × (s.timed_out ≡ false))

  drive_tready-Taken :
      (n : ℕ) (s : TxState) → Midway n s → Taken n (drive_tready random_idle item s)
  unfolding Taken Midway drive_tready
  drive_tready-Taken n s h =
      if-cases (Taken n) (s.idle == 0) _ _
        (λ e. elim h [
          | inl running ↦ inl running
          | inr (inl late) ↦ inr (inl late)
          | inr (inr (stopped, one, on_time)) ↦
              inr (inr (stopped, one, on_time, inl (rw stopped refl)))
        ])
        (λ e. elim h [
          | inl running ↦ inl running
          | inr (inl late) ↦ inr (inl late)
          | inr (inr (stopped, one, on_time)) ↦ inr (inr (stopped, one, on_time, inr refl))
        ])

  count_down-Midway : (n : ℕ) (s : TxState) → Midway n s → Midway n (count_down random_idle item s)
  unfolding Midway count_down
  count_down-Midway n s h =
      if-cases (Midway n) (s.is_running && not (item.timeout == 0)) _ _
        (λ e. if-cases (Midway n) (s.timeout == 0) _ _ (λ t. inr (inl (refl, refl))) (λ t. h))
        (λ e. h)

  shape : (a b c d : Bool) → (a && b && c && d) ≡ (((a && b) && c) && d)
  shape true true c d = refl
  shape true false c d = refl
  shape false b c d = refl

  -- One check of the bus, by whether the transfer is one of the item's and the last one.
  waiting-Midway :
      (t : Bool) (n : ℕ) (vif : BusIf) (s : TxState)
      → s.is_running ≡ true
      → n ≡ 0
      → s.timed_out ≡ false
      → Midway (if t && vif.tlast then suc n else n) (accepted t vif s)
  unfolding Midway accepted
  waiting-Midway true n vif s running none_yet on_time = elim (Bool-cases vif.tlast) [
    | inl e ↦ inr (
        inr
          (ap not e, ap (λ b. if b then suc n else n) e ∙ ap (λ (t : ℕ). suc t) none_yet, on_time))
    | inr e ↦ inl (ap not e, ap (λ b. if b then suc n else n) e ∙ none_yet, on_time)
  ]
  waiting-Midway false n vif s running none_yet on_time = inl (running, none_yet, on_time)

  running-taken_now :
      (vif : BusIf) (s : TxState)
      → s.is_running ≡ true
      → taken_now vif s ≡ ((s.tready && vif.tvalid) && for_item item vif)
  unfolding taken_now
  running-taken_now vif s running =
      ap (λ r. (r && s.tready && vif.tvalid) && for_item item vif) running

  -- After its packet the loop takes no transfer.
  stopped-taken_now : (vif : BusIf) (s : TxState) → s.is_running ≡ false → taken_now vif s ≡ false
  unfolding taken_now
  stopped-taken_now vif s stopped =
      ap (λ r. (r && s.tready && vif.tvalid) && for_item item vif) stopped

  still :
      (n : ℕ) (vif : BusIf) (s : TxState)
      → s.is_running ≡ false
      → Midway n s
      → Midway n (accepted (taken_now vif s) vif s)
  unfolding accepted
  still n vif s stopped h =
      subst
        (λ u.
          Midway n
            (if u then record s { timeout = item.timeout; is_running = not vif.tlast } else s))
        (sym (stopped-taken_now vif s stopped)) h

  not_ready :
      (s : TxState)
      → s.is_running ≡ false
      → (s.is_running || not (s.idle == 0)) ≡ true
      → (s.idle ≡ 0) ⊎ (s.tready ≡ false)
      → s.tready ≡ false
  not_ready s stopped going (inl none_left) =
      absurd (true≢false (sym going ∙ ap₂ (λ r (i : ℕ). r || not (i == 0)) stopped none_left))
  not_ready s stopped going (inr h) = h

  accepted-Midway :
      (n : ℕ) (vif : BusIf) (s : TxState)
      → Taken n s
      → (s.is_running || not (s.idle == 0)) ≡ true
      → Midway
          (if finishes item (record vif { tready = s.tready }) then suc n else n)
          (accepted (taken_now vif s) vif s)
  unfolding Taken
  accepted-Midway n vif s (inl (running, none_yet, on_time)) going =
      subst (λ c. Midway (if c then suc n else n) (accepted (taken_now vif s) vif s))
        (sym (shape s.tready vif.tvalid (for_item item vif) vif.tlast))
        (subst
          (λ u.
            Midway
              (if ((s.tready && vif.tvalid) && for_item item vif) && vif.tlast then suc n else n)
              (accepted u vif s))
          (sym (running-taken_now vif s running))
          (waiting-Midway ((s.tready && vif.tvalid) && for_item item vif) n vif s running none_yet
            on_time))
  accepted-Midway n vif s (inr (inl (stopped, late))) going =
      still _ vif s stopped (unfold Midway in inr (inl (stopped, late)))
  accepted-Midway n vif s (inr (inr (stopped, one, on_time, done))) going = still _ vif s stopped (
      unfold Midway in
      inr (
        inr (
          stopped,
          ap (λ r. if r && vif.tvalid && for_item item vif && vif.tlast then suc n else n)
                (not_ready s stopped going done)
              ∙ one,
          on_time,
        )))

  pub after_turn-Taken :
      (n : ℕ) (vif : BusIf) (s : TxState)
      → Taken n s
      → (s.is_running || not (s.idle == 0)) ≡ true
      → Taken
          (if finishes item (record vif { tready = s.tready }) then suc n else n)
          (after_turn vif s)
  unfolding after_turn
  after_turn-Taken n vif s h going =
      drive_tready-Taken _ _ (count_down-Midway _ _ (accepted-Midway n vif s h going))
