-- ===== src/Axi4/Stream/Link/Adds.antt =====
-- What the monitor of src/logic/axi4/stream/monitor.cpp sees of one item that `run_phase` of
-- src/logic/axi4/stream/rx_driver.cpp serves.
use logic.Base.{
  ℕ, zero, suc, ◌+◌, ◌-◌, ◌*◌, ◌/◌, ◌<◌, ◌≤◌, ◌≡◌, refl, sym, ap, ◌∙◌, Bool, true, false, not, ◌&&◌,
  Option, none, List, [], ◌∷◌, ◌++◌, map, arith, length, take, All, All-take, All-drop, if-cases,
  if◌then◌else◌, ◌==◌, le→leb, div-fields,
}
use logic.Axi4.Stream.BusIf.{BusIf, Widths, set_tvalid}
use logic.Axi4.Stream.Items.{ItemType, data_item, idle_item}
use logic.Axi4.Stream.Monitor.Laws.{
  Collected, Event, handshake, reset, observed, joined, reassemble,
}
use logic.Axi4.Stream.RxDriver.{RxItem, RxState, Edge, at_edge, data_transfer, turn}
use logic.Axi4.Stream.RxDriver.Beats.{Beat, beat_of, first_beats, nth_beat}
use logic.Axi4.Stream.RxDriver.Idle.{idle_transfer, idle_start}
use logic.Axi4.Stream.RxDriver.Delivery.{all_bytes-first_beats, rx_delivery}
use logic.Axi4.Stream.RxDriver.RunPhase.{Served, serve_idle, serve_data, serve}
use logic.Axi4.Stream.Link.{
  packet_of_item, opened_after, with_data, joined-whole, reassemble-first_beats,
  observed-data_transfer,
}

-- The fewest transfers that hold so many bytes.
abbrev transfers : ℕ → ℕ → ℕ
transfers bus_size bytes = (bytes + bus_size - 1) / bus_size

transfers_lem : (b len n : ℕ) → 0 < b → len ≤ n * b → n * b < len + b → n ≡ transfers b len
transfers_lem b len n h low high =
    sym (div-fields n b {r = len + b - 1 - n * b} (omega arith))
    ∙ ap (λ (t : ℕ). t / b) (omega arith)

-- The packets that a sequence of items should give, in order: one for each item with data.
abbrev pub with_item : Widths → ℕ → ItemType → RxItem → List Collected → List Collected
with_item widths bus_size idle_item item rest = rest
with_item widths bus_size data_item item rest =
    if length item.tdata == 0
    then rest
    else packet_of_item widths item bus_size (transfers bus_size (length item.tdata)) ∷ rest

pub observed-append :
    (bus_size : ℕ) (xs ys : List BusIf)
    → observed bus_size (xs ++ ys) ≡ observed bus_size xs ++ observed bus_size ys
observed-append bus_size [] ys = refl
observed-append bus_size (vif ∷ xs) ys =
    by_test (not vif.areset_n) (vif.tvalid && vif.tready) reset (handshake (beat_of bus_size vif))
      (observed bus_size xs) (observed bus_size ys) (observed-append bus_size xs ys)
  where
    by_test :
        (a b : Bool) (e f : Event) {all : List Event} (first second : List Event)
        → all ≡ first ++ second
        → (if a then e ∷ all else if b then f ∷ all else all)
          ≡ (if a then e ∷ first else if b then f ∷ first else first) ++ second
    by_test true b e f first second h = ap (λ (r : List Event). e ∷ r) h
    by_test false true e f first second h = ap (λ (r : List Event). f ∷ r) h
    by_test false false e f first second h = h

-- A bus without `tvalid` and without a reset shows nothing.
observed-idle :
    (bus_size : ℕ) (vif : BusIf) (edges : List Edge)
    → vif.tvalid ≡ false
    → All (λ e. e.areset_n ≡ true) edges
    → observed bus_size (map (λ edge. at_edge edge vif) edges) ≡ []
observed-idle bus_size vif [] h k = refl
observed-idle bus_size vif (edge ∷ edges) h k =
    simp (h, k.0) (observed-idle bus_size vif edges h k.1)

module _ (widths : Widths) (random_idle : ℕ → ℕ) (bus_size : ℕ) where
  -- When `data_transfer` has returned, `tvalid` is low.
  returned-tvalid :
      (item : RxItem) (edges : List Edge) (s : RxState)
      → (data_transfer widths random_idle item bus_size edges s).1 ≡ true
      → (data_transfer widths random_idle item bus_size edges s).0.vif.tvalid ≡ false
  unfolding data_transfer set_tvalid
  returned-tvalid item [] s h = cc
  returned-tvalid item (edge ∷ edges) s r =
      if-cases {A = RxState × Bool × List BusIf} (λ run. run.1 ≡ true → run.0.vif.tvalid ≡ false)
        (s.is_running && edge.areset_n) _ _
        (λ h. returned-tvalid item edges (turn widths random_idle item bus_size edge s))
        (λ h r. refl) r

  reassemble-item_then :
      (item : RxItem) (n : ℕ) (events : List Event)
      → length item.tdata ≤ suc n * bus_size
      → suc n * bus_size < length item.tdata + bus_size
      → reassemble none (map handshake (first_beats widths item bus_size (suc n)) ++ events)
        ≡ packet_of_item widths item bus_size (suc n) ∷ reassemble none events
  reassemble-item_then item n events h k =
      ap (reassemble none)
        (moved (first_beats widths item bus_size n) (nth_beat widths item bus_size n))
      ∙ reassemble-first_beats widths random_idle item bus_size n
          (handshake (nth_beat widths item bus_size n) ∷ events) (within n bus_size k)
      ∙ ended (opened_after widths random_idle item bus_size n) (nth_beat widths item bus_size n)
          (le→leb _ _ h)
      ∙ ap (λ (c : Collected). c ∷ reassemble none events)
          (joined-whole widths random_idle item bus_size n
            ∙ ap (with_data widths random_idle item bus_size (suc n))
                (all_bytes-first_beats widths item bus_size (suc n)))
    where
      moved :
          (beats : List Beat) (beat : Beat)
          → map handshake (beats ++ beat ∷ []) ++ events
            ≡ map handshake beats ++ handshake beat ∷ events
      moved [] beat = refl
      moved (b ∷ beats) beat = ap (λ (r : List Event). handshake b ∷ r) (moved beats beat)

      ended :
          (current : Option Collected) (beat : Beat)
          → beat.last ≡ true
          → reassemble current (handshake beat ∷ events)
            ≡ joined current beat ∷ reassemble none events
      ended current beat h = rw h refl

      within : (n b : ℕ) → suc n * b < length item.tdata + b → n * b < length item.tdata
      within n b k = omega arith

  data_adds :
      (item : RxItem) (n : ℕ) (events : List Event)
      → 0 < bus_size
      → length item.tdata ≤ n * bus_size
      → n * bus_size < length item.tdata + bus_size
      → reassemble none (map handshake (first_beats widths item bus_size n) ++ events)
        ≡ with_item widths bus_size data_item item (reassemble none events)
  data_adds item zero events p h k = sym (rw (no_data (length item.tdata) h) refl)
    where
      zero_times : (b : ℕ) → 0 * b ≡ 0
      zero_times b = omega arith

      no_data : (n : ℕ) → n ≤ 0 * bus_size → (n == 0) ≡ true
      no_data n h = ground (arith, zero_times bus_size)
  data_adds item (suc n) events p h k =
      reassemble-item_then item n events h k
      ∙ ap (λ (m : ℕ). packet_of_item widths item bus_size m ∷ reassemble none events)
          (transfers_lem bus_size (length item.tdata) (suc n) p h k)
      ∙ sym (rw (some_data (length item.tdata) n bus_size k) refl)
    where
      one_more : (n b : ℕ) → b ≤ suc n * b
      one_more n b = omega arith

      some_data : (l n b : ℕ) → suc n * b < l + b → (l == 0) ≡ false
      some_data l n b h = ground (arith, one_more n b)

  -- One item that was served in time and without a reset.
  pub record Adds (type : ItemType) (item : RxItem) (s : Served) : Type 0 where
    pub quiet : s.vif.tvalid ≡ false
    pub calm : All (λ e. e.areset_n ≡ true) s.left
    pub events :
        (later : List Event)
        → reassemble none (observed bus_size s.seen ++ later)
          ≡ with_item widths bus_size type item (reassemble none later)

  module _ (item : RxItem) (edges : List Edge) (vif : BusIf) (draws : ℕ) (idle : vif.tvalid ≡ false)
      (no_reset : All (λ e. e.areset_n ≡ true) edges) where
    data-Adds :
        0 < bus_size
        → (serve_data widths random_idle bus_size item edges vif draws).returned ≡ true
        → (serve_data widths random_idle bus_size item edges vif draws).timed_out ≡ false
        → Adds data_item item (serve_data widths random_idle bus_size item edges vif draws)
    unfolding serve_data
    data-Adds positive returned on_time =
        let (n, taken, bytes, enough, within) =
          rx_delivery widths random_idle item bus_size vif draws positive idle edges returned
            on_time no_reset in
        record {
          quiet = returned-tvalid item edges _ returned;
          calm = All-drop (λ (e : Edge). e.areset_n ≡ true) _ edges no_reset;
          events = λ later.
              ap (λ (events : List Event). reassemble none (events ++ later))
                (observed-data_transfer widths random_idle item bus_size edges _
                  ∙ ap (map handshake) taken)
              ∙ data_adds item n later positive enough within;
        }

    abbrev used : ℕ
    used =
        length edges
        - length
            (idle_transfer random_idle item (map (λ edge. edge.tready) edges)
              (idle_start random_idle item draws)).2

    idle-Adds : Adds idle_item item (serve_idle widths random_idle bus_size item edges vif draws)
    unfolding serve_idle
    idle-Adds = record {
      quiet = idle;
      calm = All-drop (λ (e : Edge). e.areset_n ≡ true) _ edges no_reset;
      events = λ later.
          ap (λ (events : List Event). reassemble none (events ++ later))
            (observed-idle bus_size vif (take used edges) idle
              (All-take (λ (e : Edge). e.areset_n ≡ true) used edges no_reset));
    }

    pub serve-Adds :
        (type : ItemType)
        → 0 < bus_size
        → (serve widths random_idle bus_size type item edges vif draws).returned ≡ true
        → (serve widths random_idle bus_size type item edges vif draws).timed_out ≡ false
        → Adds type item (serve widths random_idle bus_size type item edges vif draws)
    unfolding serve
    serve-Adds idle_item positive returned on_time = idle-Adds
    serve-Adds data_item positive returned on_time = data-Adds positive returned on_time
