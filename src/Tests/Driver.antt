-- ===== src/Tests/Driver.antt =====
-- A receiver driver and a monitor (src/logic/axi4/stream/rx_driver.cpp,
-- src/logic/axi4/stream/monitor.cpp) on a bus of two lanes.
use logic.Base.{
  ℕ, ◌+◌, ◌*◌, ◌%◌, ◌≤◌, ◌<◌, ◌≡◌, refl, true, false, none, List, [], ◌∷◌, arith, map, All,
}
use logic.Bitstream.Defs.{Bitstream, empty}
use logic.Axi4.Stream.TdataByte.{data_byte, position_byte}
use logic.Axi4.Stream.BusIf.{BusIf, Widths}
use logic.Axi4.Stream.Monitor.{run_phase, lanes_of}
use logic.Axi4.Stream.Monitor.Laws.{collected, observed, reassemble, monitor_reassembles}
use logic.Axi4.Stream.Items.{data_item}
use logic.Axi4.Stream.RxDriver.{RxItem, RxState, Edge, data_transfer, start}
use logic.Axi4.Stream.RxDriver.Lanes.{padded}
use logic.Axi4.Stream.RxDriver.Beats.{accepted, first_beats}
use logic.Axi4.Stream.RxDriver.Delivery.{outcome, all_bytes, rx_prefix, rx_delivery}
use logic.Axi4.Stream.RxDriver.Progress.{rx_returns}
use logic.Axi4.Stream.Link.{packet_of_item, link_delivers}

abbrev widths : Widths
widths = record { fit_tid = λ s. s; fit_tdest = λ s. s; fit_tuser = λ s. s }

abbrev random_idle : ℕ → ℕ
random_idle k = k % 2

random_idle-le : (k : ℕ) → random_idle k ≤ 1
random_idle-le k = omega arith

abbrev one_id : Bitstream
one_id = record { m_bits = 0x01 ∷ []; m_size = 4 }

-- Three bytes: two transfers.
abbrev item : RxItem
item = record {
  type = data_item;
  tid = one_id;
  tdest = empty;
  tuser = one_id ∷ [];
  tdata =
      record { m_type = data_byte; m_data = 0x11 }
      ∷ record { m_type = position_byte; m_data = 0x22 }
      ∷ record { m_type = data_byte; m_data = 0x33 }
      ∷ [];
  idle = record { m_min = 0; m_max = 1 };
  timeout = 3;
}

abbrev quiet : BusIf
quiet = record {
  areset_n = true;
  tvalid = false;
  tready = false;
  tlast = false;
  tkeep = λ i. false;
  tstrb = λ i. false;
  tdata = λ i. 0;
  tid = empty;
  tdest = empty;
  tuser = empty;
}

abbrev ready : Edge
ready = record { areset_n = true; tready = true }

abbrev waiting : Edge
waiting = record { areset_n = true; tready = false }

abbrev edges : List Edge
edges =
    ready ∷ waiting ∷ ready ∷ ready ∷ waiting ∷ ready ∷ ready ∷ ready ∷ ready ∷ ready ∷ ready ∷ []

edges_no_reset : All (λ e. e.areset_n ≡ true) edges
edges_no_reset =
    (refl, (refl, (refl, (refl, (refl, (refl, (refl, (refl, (refl, (refl, (refl, tt)))))))))))

returned : (outcome widths random_idle item 2 quiet 0 edges).1 ≡ true
returned = rx_returns widths random_idle 1 random_idle-le item 2 quiet 0 edges (omega arith)

on_time : (outcome widths random_idle item 2 quiet 0 edges).0.timed_out ≡ false
unfolding logic.Axi4.Stream.RxDriver.data_transfer logic.Axi4.Stream.RxDriver.turn
    logic.Axi4.Stream.RxDriver.when_ready logic.Axi4.Stream.RxDriver.when_waiting
    logic.Axi4.Stream.RxDriver.drive_transfer logic.Axi4.Stream.RxDriver.drive_lanes
    logic.Axi4.Stream.RxDriver.drive_byte logic.Axi4.Stream.RxDriver.drive_nothing
    logic.Axi4.Stream.RxDriver.start
on_time = refl

rx_prefix_example :
    (n : ℕ) × (accepted 2 (outcome widths random_idle item 2 quiet 0 edges).2
      ≡ first_beats widths item 2 n)
    × (n * 2 < 3 + 2)
rx_prefix_example = rx_prefix widths random_idle item 2 quiet 0 (omega arith) refl edges

rx_delivery_example :
    (n : ℕ) × (accepted 2 (outcome widths random_idle item 2 quiet 0 edges).2
      ≡ first_beats widths item 2 n)
    × (all_bytes (accepted 2 (outcome widths random_idle item 2 quiet 0 edges).2)
        ≡ padded (n * 2) item.tdata)
    × (3 ≤ n * 2)
    × (n * 2 < 3 + 2)
rx_delivery_example =
    rx_delivery widths random_idle item 2 quiet 0 (omega arith) refl edges returned on_time
      edges_no_reset

rx_returns_example : (outcome widths random_idle item 2 quiet 0 edges).1 ≡ true
rx_returns_example =
    rx_returns widths random_idle 1 random_idle-le item 2 quiet 0 edges (omega arith)

link_delivers_example :
    (n : ℕ) × (map collected
        (run_phase (lanes_of 2) 7 (outcome widths random_idle item 2 quiet 0 edges).2 []).1
      ≡ packet_of_item widths item 2 n ∷ [])
    × (3 ≤ n * 2)
    × (n * 2 < 3 + 2)
link_delivers_example =
    link_delivers widths random_idle item 2 quiet 0 7 edges (omega arith) (omega arith) refl
      returned on_time edges_no_reset

abbrev shown : BusIf
shown = record quiet { tvalid = true; tready = true; tlast = true; tid = one_id }

monitor_reassembles_example :
    map collected (run_phase 1 0 (quiet ∷ shown ∷ []) []).1
    ≡ reassemble none (observed 1 (quiet ∷ shown ∷ []))
monitor_reassembles_example = monitor_reassembles 1 0 (quiet ∷ shown ∷ [])
