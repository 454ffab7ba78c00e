-- ===== src/Axi4/Stream/TxDriver/OnePacket.antt =====
-- That `transfer` of src/logic/axi4/stream/tx_driver.cpp takes one packet.
use logic.Base.{
  ℕ, suc, ◌+◌, ◌≡◌, refl, sym, ap, ◌∙◌, Bool, true, false, not, ◌&&◌, ◌||◌, Option, some, List, [],
  ◌∷◌, if◌then◌else◌, ◌==◌, ◌>>=◌, All, arith, inl, inr, if-cases, and_left, and_right, ◌⊎◌,
}
use logic.Bitstream.Valid.{IsValid}
use logic.Axi4.Stream.BusIf.{BusIf}
use logic.Axi4.Stream.TxDriver.{TxItem, TxState, tx_turn, tx_start, tx_transfer}
use logic.Axi4.Stream.TxDriver.Turn.{
  finishes, HasValidIds, Taken, after_turn, tx_turn_lem, after_turn-Taken,
}

abbrev pub packets_taken : TxItem → List BusIf → ℕ
packets_taken item [] = 0
packets_taken item (vif ∷ vifs) =
    if finishes item vif then suc (packets_taken item vifs) else packets_taken item vifs

-- The reset is never active.
abbrev pub out_of_reset : List BusIf → Bool
out_of_reset [] = true
out_of_reset (vif ∷ vifs) = vif.areset_n && out_of_reset vifs

module _ (random_idle : ℕ → ℕ) (item : TxItem) (tid_valid : IsValid item.tid)
    (tdest_valid : IsValid item.tdest) where
  -- What the loop has taken when it is left or when the edges are at their end.
  abbrev Result : ℕ → List BusIf → Option (TxState × Bool × List BusIf) → Type 0
  Result n vifs result =
      (last : TxState) × (returned : Bool) × (seen : List BusIf) × (result
        ≡ some (last, returned, seen))
      × ((last.timed_out ≡ true)
          ⊎ (n + packets_taken item seen ≡ (if last.is_running then 0 else 1)))
      × ((returned && (last.is_running && out_of_reset vifs)) ≡ false)

  counted :
      (b : Bool) (n p m : ℕ) → (if b then suc n else n) + p ≡ m → n + (if b then suc p else p) ≡ m
  counted true n p m h = omega arith
  counted false n p m h = h

  sequenced :
      (n : ℕ) (vif : BusIf) (vifs : List BusIf) (s next : TxState)
      → vif.areset_n ≡ true
      → tx_turn random_idle item vif s ≡ some next
      → Result
          (if finishes item (record vif { tready = s.tready }) then suc n else n)
          vifs
          (tx_transfer random_idle item vifs next)
      → Result n (vif ∷ vifs) (do
        s' ← tx_turn random_idle item vif s
        result ← tx_transfer random_idle item vifs s'
        some (result.0, result.1, record vif { tready = s.tready } ∷ result.2))
  sequenced n vif vifs s next running turned (last, returned, seen, ran, taken, over) = (
    last,
    returned,
    record vif { tready = s.tready } ∷ seen,
    rw (turned, ran) refl,
    elim taken [
      | inl late ↦ inl late
      | inr one ↦ inr (
          counted (finishes item (record vif { tready = s.tready })) n (packets_taken item seen) _
            one)
    ],
    ap (λ b. returned && (last.is_running && (b && out_of_reset vifs))) running ∙ over,
  )

  so_far :
      (n : ℕ) (s : TxState)
      → Taken random_idle item tid_valid tdest_valid n s
      → (s.timed_out ≡ true) ⊎ (n + 0 ≡ (if s.is_running then 0 else 1))
  unfolding Taken
  so_far n s (inl (running, none_yet, on_time)) =
      inr (ap (λ (m : ℕ). m + 0) none_yet ∙ ap (λ b. if b then 0 else 1) (sym running))
  so_far n s (inr (inl (stopped, late))) = inl late
  so_far n s (inr (inr (stopped, one, on_time, h))) =
      inr (ap (λ (m : ℕ). m + 0) one ∙ ap (λ b. if b then 0 else 1) (sym stopped))

  -- The loop is only left after its packet or in reset.
  left_by :
      (running idling areset_n : Bool) (vifs : List BusIf)
      → ((running || idling) && areset_n) ≡ false
      → (running && (areset_n && out_of_reset vifs)) ≡ false
  left_by true idling areset_n vifs h = ap (λ b. b && out_of_reset vifs) h
  left_by false idling areset_n vifs h = refl

  loop :
      (vifs : List BusIf) (n : ℕ) (s : TxState)
      → All HasValidIds vifs
      → Taken random_idle item tid_valid tdest_valid n s
      → Result n vifs (tx_transfer random_idle item vifs s)
  unfolding tx_transfer
  loop [] n s v h = (s, false, [], refl, so_far n s h, refl)
  loop (vif ∷ vifs) n s v h =
      if-cases (Result n (vif ∷ vifs)) ((s.is_running || not (s.idle == 0)) && vif.areset_n) _ _
        (λ e.
          sequenced n vif vifs s (after_turn random_idle item tid_valid tdest_valid vif s)
            (and_right _ _ e) (tx_turn_lem random_idle item tid_valid tdest_valid vif s v.0)
            (loop vifs _ (after_turn random_idle item tid_valid tdest_valid vif s) v.1
              (after_turn-Taken random_idle item tid_valid tdest_valid n vif s h (and_left _ _ e))))
        (λ e. (
          record s { tready = false },
          true,
          [],
          refl,
          so_far n s h,
          left_by s.is_running (not (s.idle == 0)) vif.areset_n vifs e,
        ))

  -- When the identifiers of the item and of the bus are valid streams, every comparison of
  -- `transfer` is defined, and, unless its time-out was reported, it has taken the last transfer
  -- of exactly one packet of the item when its loop runs no more for a packet, and of none
  -- before; without a reset it returns only then.
  pub tx_takes_one :
      (tready : Bool) (draws : ℕ) (vifs : List BusIf)
      → All HasValidIds vifs
      → (last : TxState) × (returned : Bool) × (seen : List BusIf) × (tx_transfer random_idle item
            vifs
            (tx_start random_idle item tready draws)
          ≡ some (last, returned, seen))
        × ((last.timed_out ≡ true) ⊎ (packets_taken item seen ≡ (if last.is_running then 0 else 1)))
        × ((returned && (last.is_running && out_of_reset vifs)) ≡ false)
  tx_takes_one tready draws vifs v =
      let (last, returned, seen, ran, taken, over) =
        loop vifs 0 (tx_start random_idle item tready draws) v
          (unfold Taken tx_start in inl (refl, refl, refl)) in
      (
        last,
        returned,
        seen,
        ran,
        elim taken [ inl late ↦ inl late | inr one ↦ inr (from_zero _ ∙ one) ],
        over,
      )
    where
      from_zero : (n : ℕ) → n ≡ 0 + n
      from_zero n = omega arith
