-- ===== src/Axi4/Stream/RxDriver/Safety.antt =====
-- src/logic/axi4/stream/rx_driver.cpp, `data_transfer`: which transfers a receiver takes, whatever it
-- does with `tready`.
use logic.Base.{
  ℕ, suc, ◌+◌, ◌*◌, ◌≤◌, ◌<◌, min, ◌≡◌, refl, sym, ap, ◌∙◌, subst, Bool, true, false, ◌&&◌, List,
  [], ◌∷◌, ◌++◌, arith, length, if◌then◌else◌, All, Bool-cases, if-cases, and_left, and_false, inl,
  inr,
}
use mathlib.Core.List.{append-nil, append_assoc}
use mathlib.Core.Bool.{true≢false}
use logic.Axi4.Stream.BusIf.{BusIf, Widths}
use logic.Axi4.Stream.RxDriver.{RxItem, RxState, Edge, at_edge, data_transfer}
use logic.Axi4.Stream.RxDriver.Beats.{Beat, accepted, nth_beat, first_beats}
use logic.Axi4.Stream.RxDriver.Sending.{Sending, beat_at_edge, turn-Sending}

module _ (widths : Widths) (random_idle : ℕ → ℕ) (item : RxItem) (bus_size : ℕ) where
  module _ (positive : 0 < bus_size) where
    left-over :
        (taken : ℕ) (s : RxState)
        → Sending widths random_idle item bus_size taken s
        → taken * bus_size < length item.tdata + bus_size
    left-over taken s sending = elim (Bool-cases s.vif.tvalid) [
      | inl v ↦ later (sending.count ∙ rw v refl)
      | inr v ↦ same (sending.count ∙ rw v refl)
    ]
      where
        same : s.transfer ≡ taken → taken * bus_size < length item.tdata + bus_size
        same e = subst (λ n. n * bus_size < length item.tdata + bus_size) e sending.close

        later : s.transfer ≡ suc taken → taken * bus_size < length item.tdata + bus_size
        later e = below (subst (λ n. n * bus_size < length item.tdata + bus_size) e sending.close)
          where
            below :
                suc taken * bus_size < length item.tdata + bus_size
                → taken * bus_size < length item.tdata + bus_size
            below h = omega arith

    all-sent :
        (taken : ℕ) (s : RxState)
        → Sending widths random_idle item bus_size taken s
        → s.is_running ≡ false
        → s.timed_out ≡ false
        → length item.tdata ≤ taken * bus_size
    all-sent taken s sending r t =
        let (v, h) = sending.done r t in
        let e : s.transfer ≡ taken = sending.count ∙ rw v refl in
        subst (λ n. length item.tdata ≤ n * bus_size) e (within sending.index h)
      where
        within :
            s.index ≡ min (s.transfer * bus_size) (length item.tdata)
            → length item.tdata ≤ s.index
            → length item.tdata ≤ s.transfer * bus_size
        within e h = omega arith

    -- What `data_transfer` achieved from a state with `taken` handshakes behind it.
    pub record Sent (edges : List Edge) (taken : ℕ) (run : RxState × Bool × List BusIf)
        : Type 0 where
      pub beats : ℕ
      pub prefix :
          first_beats widths item bus_size taken ++ accepted bus_size run.2
          ≡ first_beats widths item bus_size beats
      pub within : beats * bus_size < length item.tdata + bus_size
      pub complete :
          run.1 ≡ true
          → run.0.timed_out ≡ false
          → All (λ e. e.areset_n ≡ true) edges
          → length item.tdata ≤ beats * bus_size

    add-beat :
        (taken : ℕ) (tvalid tready : Bool) (beat : Beat) (rest all : List Beat)
        → (tvalid ≡ true → beat ≡ nth_beat widths item bus_size taken)
        → first_beats widths item bus_size (if tvalid && tready then suc taken else taken) ++ rest
          ≡ all
        → first_beats widths item bus_size taken ++ (if tvalid && tready then beat ∷ rest else rest)
          ≡ all
    add-beat taken true true beat rest all e h =
        ap (λ b. first_beats widths item bus_size taken ++ b ∷ rest) (e refl)
        ∙ sym (
            append_assoc (first_beats widths item bus_size taken)
              (nth_beat widths item bus_size taken ∷ []) rest)
        ∙ h
    add-beat taken true false beat rest all e h = h
    add-beat taken false tready beat rest all e h = h

    edge_step :
        (edge : Edge) (edges : List Edge) (taken : ℕ) (s : RxState)
        (run : RxState × Bool × List BusIf)
        → Sending widths random_idle item bus_size taken s
        → Sent edges (if s.vif.tvalid && edge.tready then suc taken else taken) run
        → Sent (edge ∷ edges) taken (run.0, run.1, at_edge edge s.vif ∷ run.2)
    edge_step edge edges taken s run sending sent = record {
      beats = sent.beats;
      prefix =
          add-beat taken s.vif.tvalid edge.tready _ _ _
            (λ v.
              beat_at_edge widths random_idle item bus_size positive edge s.vif ∙ sending.held v)
            sent.prefix;
      within = sent.within;
      complete = λ r t a. sent.complete r t a.1;
    }

    pub data_transfer-Sent :
        (edges : List Edge) (taken : ℕ) (s : RxState)
        → Sending widths random_idle item bus_size taken s
        → Sent edges taken (data_transfer widths random_idle item bus_size edges s)
    unfolding data_transfer
    data_transfer-Sent [] taken s sending = record {
      beats = taken;
      prefix = append-nil _;
      within = left-over taken s sending;
      complete = λ r t a. cc;
    }
    data_transfer-Sent (edge ∷ edges) taken s sending =
        if-cases (Sent (edge ∷ edges) taken) (s.is_running && edge.areset_n) _ _
          (λ h.
            let running = and_left _ _ h in
            edge_step edge edges taken s _ sending (
              data_transfer-Sent edges _ _ (
                turn-Sending widths random_idle item bus_size positive taken edge s running
                  sending)))
          (λ h. record {
            beats = taken;
            prefix = append-nil _;
            within = left-over taken s sending;
            complete = λ r t a. elim (and_false _ _ h) [
              | inl stopped ↦ all-sent taken s sending stopped t
              | inr reset ↦ absurd (true≢false (sym a.0 ∙ reset))
            ];
          })
