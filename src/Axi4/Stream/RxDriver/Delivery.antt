-- ===== src/Axi4/Stream/RxDriver/Delivery.antt =====
-- The contract of `data_transfer` of src/logic/axi4/stream/rx_driver.cpp, from its start on.
use logic.Base.{
  Bool, false, true, ℕ, zero, suc, ◌+◌, ◌*◌, ◌≤◌, ◌<◌, min, ◌≡◌, refl, sym, ap, ap₂, ◌∙◌, true,
  false, List, [], ◌∷◌, ◌++◌, arith, length, ltb, All,
}
use mathlib.Core.List.{append-nil, append_assoc}
use logic.Axi4.Stream.TdataByte.{TdataByte}
use logic.Axi4.Stream.BusIf.{BusIf, Widths}
use logic.Axi4.Stream.RxDriver.{RxItem, RxState, Edge, start, data_transfer}
use logic.Axi4.Stream.RxDriver.Lanes.{padded}
use logic.Axi4.Stream.RxDriver.Beats.{Beat, accepted, first_beats, nth_beat, padded-add}
use logic.Axi4.Stream.RxDriver.Sending.{Sending}
use logic.Axi4.Stream.RxDriver.Safety.{data_transfer-Sent}

-- All bytes of some transfers.
abbrev pub all_bytes : List Beat → List TdataByte
all_bytes [] = []
all_bytes (beat ∷ beats) = beat.bytes ++ all_bytes beats

pub all_bytes-append : (xs ys : List Beat) → all_bytes (xs ++ ys) ≡ all_bytes xs ++ all_bytes ys
all_bytes-append [] ys = refl
all_bytes-append (x ∷ xs) ys =
    ap (λ r. x.bytes ++ r) (all_bytes-append xs ys)
    ∙ sym (append_assoc x.bytes (all_bytes xs) (all_bytes ys))

module _ (widths : Widths) (item : RxItem) (bus_size : ℕ) where
  pub all_bytes-first_beats :
      (n : ℕ) → all_bytes (first_beats widths item bus_size n) ≡ padded (n * bus_size) item.tdata
  all_bytes-first_beats zero = ap (λ t. padded t item.tdata) (nothing bus_size)
    where
      nothing : (b : ℕ) → 0 ≡ 0 * b
      nothing b = omega arith
  all_bytes-first_beats (suc n) =
      all_bytes-append (first_beats widths item bus_size n) (nth_beat widths item bus_size n ∷ [])
      ∙ ap₂ ◌++◌ (all_bytes-first_beats n) (append-nil _)
      ∙ sym (padded-add (n * bus_size) bus_size item.tdata)
      ∙ ap (λ t. padded t item.tdata) (one_more n bus_size)
    where
      one_more : (n b : ℕ) → n * b + b ≡ suc n * b
      one_more n b = omega arith

module _ (widths : Widths) (random_idle : ℕ → ℕ) (item : RxItem) (bus_size : ℕ) (vif : BusIf)
    (draws : ℕ) where
  start-Sending :
      vif.tvalid ≡ false
      → 0 < bus_size
      → Sending widths random_idle item bus_size 0
          (start widths random_idle item bus_size vif draws)
  unfolding start
  start-Sending idle positive = record {
    index = zero_index bus_size (length item.tdata);
    close = zero_close bus_size (length item.tdata) positive;
    count = rw idle refl;
    held = λ v. cc;
    done = λ r t. (idle, empty (length item.tdata) r);
  }
    where
      zero_index : (b n : ℕ) → 0 ≡ min (0 * b) n
      zero_index b n = omega arith

      zero_close : (b n : ℕ) → 0 < b → 0 * b < n + b
      zero_close b n h = omega arith

      empty : (n : ℕ) → ltb 0 n ≡ false → n ≤ 0
      empty n h = ground arith

  -- The whole of `data_transfer`.
  abbrev pub outcome : List Edge → RxState × Bool × List BusIf
  outcome edges =
      data_transfer widths random_idle item bus_size edges
        (start widths random_idle item bus_size vif draws)

  -- Whatever the receiver and the reset do at the edges, a bus that has lanes and shows no
  -- transfer at the start only ever hands over a first part of the transfers of the item, in
  -- order and each once, and never one that begins after the item's last byte.
  pub rx_prefix :
      0 < bus_size
      → vif.tvalid ≡ false
      → (edges : List Edge)
      → (n : ℕ) × (accepted bus_size (outcome edges).2 ≡ first_beats widths item bus_size n)
        × (n * bus_size < length item.tdata + bus_size)
  rx_prefix positive idle edges =
      let sent =
        data_transfer-Sent widths random_idle item bus_size positive edges 0 _
          (start-Sending idle positive) in
      (sent.beats, sent.prefix, sent.within)

  -- When `data_transfer` returns without a time-out or a reset, on a bus that has lanes and shows
  -- no transfer at the start, the receiver has taken exactly the transfers of the item: their
  -- bytes are the item's bytes, filled up with null bytes to whole transfers, and no transfer is
  -- empty.
  pub rx_delivery :
      0 < bus_size
      → vif.tvalid ≡ false
      → (edges : List Edge) → (outcome edges).1 ≡ true
      → (outcome edges).0.timed_out ≡ false
      → All (λ e. e.areset_n ≡ true) edges
      → (n : ℕ) × (accepted bus_size (outcome edges).2 ≡ first_beats widths item bus_size n)
        × (all_bytes (accepted bus_size (outcome edges).2) ≡ padded (n * bus_size) item.tdata)
        × (length item.tdata ≤ n * bus_size)
        × (n * bus_size < length item.tdata + bus_size)
  rx_delivery positive idle edges returned on_time no_reset =
      let sent =
        data_transfer-Sent widths random_idle item bus_size positive edges 0 _
          (start-Sending idle positive) in
      (
        sent.beats,
        sent.prefix,
        ap all_bytes sent.prefix ∙ all_bytes-first_beats widths item bus_size sent.beats,
        sent.complete returned on_time no_reset,
        sent.within,
      )
