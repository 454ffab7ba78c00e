-- ===== src/Axi4/Stream/Link.antt =====
-- A receiver driver (src/logic/axi4/stream/rx_driver.cpp) and a monitor
-- (src/logic/axi4/stream/monitor.cpp) on the same bus: the item that goes in is the packet that comes
-- out.
pub mod Adds
pub mod Sequence
use logic.Base.{
  ℕ, zero, suc, ◌+◌, ◌*◌, ◌≤◌, ◌<◌, ◌≡◌, refl, sym, ap, ◌∙◌, Bool, true, false, ◌&&◌, Option, none,
  some, List, [], ◌∷◌, ◌++◌, arith, length, map, get_elem?, if-cases, and_right, All, if◌then◌else◌,
  le→leb, lt→leb-false,
}
use mathlib.Core.List.{append-nil, map-append}
use logic.Bitstream.Defs.{Bitstream}
use logic.Axi4.Stream.TdataByte.{TdataByte}
use logic.Axi4.Stream.BusIf.{BusIf, Widths}
use logic.Axi4.Stream.Monitor.{run_phase, lanes_of}
use logic.Axi4.Stream.Monitor.Laws.{
  Collected, collected, Event, handshake, observed, joined, reassemble, monitor_reassembles,
}
use logic.Axi4.Stream.RxDriver.{RxItem, RxState, Edge, at_edge, user_value, turn, data_transfer}
use logic.Axi4.Stream.RxDriver.Lanes.{padded}
use logic.Axi4.Stream.RxDriver.Beats.{Beat, beat_of, accepted, nth_beat, first_beats}
use logic.Axi4.Stream.RxDriver.Delivery.{
  outcome, all_bytes, all_bytes-append, all_bytes-first_beats, rx_delivery,
}

-- The `tuser` words of the first `n` transfers.
abbrev pub users : Widths → List Bitstream → ℕ → List Bitstream
users widths tuser zero = []
users widths tuser (suc n) = users widths tuser n ++ user_value widths (get_elem? tuser n) ∷ []

closing :
    (current : Option Collected) (beat : Beat)
    → beat.last ≡ true
    → reassemble current (handshake beat ∷ []) ≡ joined current beat ∷ []
closing current beat h = rw h refl

either :
    (c : Bool) (beat : Beat) (events : List Event) (beats : List Beat)
    → events ≡ map handshake beats
    → (if c then handshake beat ∷ events else events)
      ≡ map handshake (if c then beat ∷ beats else beats)
either true beat events beats e = ap (λ r. handshake beat ∷ r) e
either false beat events beats e = e

module _ (widths : Widths) (random_idle : ℕ → ℕ) (item : RxItem) (bus_size : ℕ) where
  -- The driver is never in reset at an edge that it passes.
  pub observed-data_transfer :
      (edges : List Edge) (s : RxState)
      → observed bus_size (data_transfer widths random_idle item bus_size edges s).2
        ≡ map handshake
            (accepted bus_size (data_transfer widths random_idle item bus_size edges s).2)
  unfolding data_transfer
  observed-data_transfer [] s = refl
  observed-data_transfer (edge ∷ edges) s =
      if-cases {A = RxState × Bool × List BusIf}
        (λ run. observed bus_size run.2 ≡ map handshake (accepted bus_size run.2))
        (s.is_running && edge.areset_n) _ _
        (λ h.
          let next = turn widths random_idle item bus_size edge s in
          shown (data_transfer widths random_idle item bus_size edges next).2 (at_edge edge s.vif)
            (and_right _ _ h) (observed-data_transfer edges next))
        (λ h. refl)
    where
      shown :
          (rest : List BusIf) (vif : BusIf)
          → vif.areset_n ≡ true
          → observed bus_size rest ≡ map handshake (accepted bus_size rest)
          → observed bus_size (vif ∷ rest) ≡ map handshake (accepted bus_size (vif ∷ rest))
      shown rest vif h e = simp h (either (vif.tvalid && vif.tready) (beat_of bus_size vif) _ _ e)

  -- The packet that is open after the first `n` transfers.
  abbrev pub opened_after : ℕ → Option Collected
  opened_after zero = none
  opened_after (suc n) = some (joined (opened_after n) (nth_beat widths item bus_size n))

  abbrev pub whole_packet : ℕ → Collected
  whole_packet n = record {
    tid = widths.fit_tid item.tid;
    tdest = widths.fit_tdest item.tdest;
    tuser = users widths item.tuser n;
    tdata = all_bytes (first_beats widths item bus_size n);
  }

  abbrev pub with_data : ℕ → List TdataByte → Collected
  with_data n tdata = record {
    tid = widths.fit_tid item.tid;
    tdest = widths.fit_tdest item.tdest;
    tuser = users widths item.tuser n;
    tdata = tdata;
  }

  pub joined-whole :
      (n : ℕ) → joined (opened_after n) (nth_beat widths item bus_size n) ≡ whole_packet (suc n)
  joined-whole zero = ap (with_data 1) (sym (append-nil _))
  joined-whole (suc n) =
      ap (λ c. joined (some c) (nth_beat widths item bus_size (suc n))) (joined-whole n)
      ∙ ap (with_data (suc (suc n))) (
          sym (
            all_bytes-append (first_beats widths item bus_size (suc n))
              (nth_beat widths item bus_size (suc n) ∷ [])
            ∙ ap (λ r. all_bytes (first_beats widths item bus_size (suc n)) ++ r) (append-nil _)))

  pub reassemble-first_beats :
      (n : ℕ) (events : List Event)
      → n * bus_size < length item.tdata
      → reassemble none (map handshake (first_beats widths item bus_size n) ++ events)
        ≡ reassemble (opened_after n) events
  reassemble-first_beats zero events h = refl
  reassemble-first_beats (suc n) events h =
      ap (reassemble none)
        (moved (first_beats widths item bus_size n) (nth_beat widths item bus_size n) events)
      ∙ reassemble-first_beats n (handshake (nth_beat widths item bus_size n) ∷ events)
          (fewer n bus_size h)
      ∙ rw (lt→leb-false _ _ h) refl
    where
      moved :
          (beats : List Beat) (beat : Beat) (events : List Event)
          → map handshake (beats ++ beat ∷ []) ++ events
            ≡ map handshake beats ++ handshake beat ∷ events
      moved [] beat events = refl
      moved (b ∷ beats) beat events = ap (λ r. handshake b ∷ r) (moved beats beat events)

      fewer : (n b : ℕ) → suc n * b < length item.tdata → n * b < length item.tdata
      fewer n b h = omega arith

  reassemble-all :
      (n : ℕ)
      → length item.tdata ≤ suc n * bus_size
      → suc n * bus_size < length item.tdata + bus_size
      → reassemble none (map handshake (first_beats widths item bus_size (suc n)))
        ≡ whole_packet (suc n) ∷ []
  reassemble-all n h k =
      ap (reassemble none) (
        map-append handshake (first_beats widths item bus_size n)
          (nth_beat widths item bus_size n ∷ []))
      ∙ reassemble-first_beats n (handshake (nth_beat widths item bus_size n) ∷ [])
          (within n bus_size k)
      ∙ closing (opened_after n) (nth_beat widths item bus_size n) (le→leb _ _ h)
      ∙ ap (λ c. c ∷ []) (joined-whole n)
    where
      within : (n b : ℕ) → suc n * b < length item.tdata + b → n * b < length item.tdata
      within n b k = omega arith

pub lanes : (b : ℕ) → 0 < b → lanes_of b ≡ b
unfolding lanes_of
lanes b h = ground arith

-- The packet that an item should give on a bus of `bus_size` lanes, in `n` transfers.
abbrev pub packet_of_item : Widths → RxItem → ℕ → ℕ → Collected
packet_of_item widths item bus_size n = record {
  tid = widths.fit_tid item.tid;
  tdest = widths.fit_tdest item.tdest;
  tuser = users widths item.tuser n;
  tdata = padded (n * bus_size) item.tdata;
}

module _ (widths : Widths) (random_idle : ℕ → ℕ) (item : RxItem) (bus_size : ℕ) where
  reassemble-item :
      (n : ℕ)
      → 0 < length item.tdata
      → length item.tdata ≤ n * bus_size
      → n * bus_size < length item.tdata + bus_size
      → reassemble none (map handshake (first_beats widths item bus_size n))
        ≡ packet_of_item widths item bus_size n ∷ []
  reassemble-item zero some_data h k = absurd (omega arith)
  reassemble-item (suc n) some_data h k =
      reassemble-all widths random_idle item bus_size n h k
      ∙ ap (λ d. with_data widths random_idle item bus_size (suc n) d ∷ [])
          (all_bytes-first_beats widths item bus_size (suc n))

  -- On a bus that has lanes and shows no transfer at the start, an item with data that the driver
  -- finishes without a time-out or a reset is written by the monitor as exactly one packet: it
  -- has the item's identifiers as the bus shows them, one `tuser` word for each transfer, and the
  -- item's bytes, filled up with null bytes to the fewest whole transfers that hold them.
  pub link_delivers :
      (vif : BusIf) (draws time : ℕ) (edges : List Edge)
      → 0 < bus_size
      → 0 < length item.tdata
      → vif.tvalid ≡ false
      → (outcome widths random_idle item bus_size vif draws edges).1 ≡ true
      → (outcome widths random_idle item bus_size vif draws edges).0.timed_out ≡ false
      → All (λ e. e.areset_n ≡ true) edges
      → (n : ℕ) × (map collected
            (run_phase
              (lanes_of bus_size)
              time
              (outcome widths random_idle item bus_size vif draws edges).2
              []).1
          ≡ packet_of_item widths item bus_size n ∷ [])
        × (length item.tdata ≤ n * bus_size)
        × (n * bus_size < length item.tdata + bus_size)
  link_delivers vif draws time edges positive some_data idle returned on_time no_reset =
      let (n, taken, bytes, enough, within) =
        rx_delivery widths random_idle item bus_size vif draws positive idle edges returned on_time
          no_reset in
      (
        n,
        ap
              (λ b.
                map collected
                  (run_phase b time (outcome widths random_idle item bus_size vif draws edges).2
                    []).1)
              (lanes bus_size positive)
            ∙ monitor_reassembles bus_size time _
            ∙ ap (reassemble none) (
                observed-data_transfer widths random_idle item bus_size edges _
                ∙ ap (map handshake) taken)
            ∙ reassemble-item n some_data enough within,
        enough,
        within,
      )
