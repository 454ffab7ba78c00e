-- ===== src/Tests/Sequences.antt =====
-- Three items, one of them idle, on a bus of two lanes (src/logic/axi4/stream/rx_driver.cpp,
-- src/logic/axi4/stream/monitor.cpp).
use logic.Base.{
  ℕ, ◌≤◌, ◌%◌, ◌≡◌, refl, true, false, List, [], ◌∷◌, arith, map, replicate, All-replicate,
}
use logic.Bitstream.Defs.{empty}
use logic.Axi4.Stream.TdataByte.{data_byte}
use logic.Axi4.Stream.BusIf.{BusIf, Widths}
use logic.Axi4.Stream.Items.{RxItem, data_item, idle_item}
use logic.Axi4.Stream.Monitor.{run_phase, lanes_of}
use logic.Axi4.Stream.Monitor.Laws.{collected}
use logic.Axi4.Stream.RxDriver.{Edge}
use logic.Axi4.Stream.RxDriver.RunPhase.{rx_run_phase}
use logic.Axi4.Stream.RxDriver.Finishes.{rx_finishes}
use logic.Axi4.Stream.Link.Sequence.{packets_of_items, run_delivers}

abbrev plain : Widths
plain = record { fit_tid = λ s. s; fit_tdest = λ s. s; fit_tuser = λ s. s }

abbrev drawn : ℕ → ℕ
drawn k = k % 2

abbrev bytes : RxItem
bytes = record {
  type = data_item;
  tid = empty;
  tdest = empty;
  tuser = [];
  tdata =
      record { m_type = data_byte; m_data = 0x11 }
      ∷ record { m_type = data_byte; m_data = 0x22 }
      ∷ record { m_type = data_byte; m_data = 0x33 }
      ∷ [];
  idle = record { m_min = 0; m_max = 1 };
  timeout = 3;
}

abbrev items : List RxItem
items = bytes ∷ record bytes { type = idle_item } ∷ record bytes { timeout = 0 } ∷ []

abbrev start_bus : BusIf
start_bus = record {
  areset_n = true;
  tvalid = false;
  tready = false;
  tlast = false;
  tkeep = λ i. false;
  tstrb = λ i. false;
  tdata = λ i. 0;
  tid = empty;
  tdest = empty;
  tuser = empty;
}

abbrev open_edge : Edge
open_edge = record { areset_n = true; tready = true }

abbrev edges : List Edge
edges = replicate 20 open_edge

finished : (rx_run_phase plain drawn 2 items edges start_bus 0).finished ≡ true
unfolding rx_run_phase logic.Axi4.Stream.RxDriver.RunPhase.serve
    logic.Axi4.Stream.RxDriver.RunPhase.serve_data logic.Axi4.Stream.RxDriver.RunPhase.serve_idle
    logic.Axi4.Stream.RxDriver.Idle.idle_transfer logic.Axi4.Stream.RxDriver.Idle.idle_turn
    logic.Axi4.Stream.RxDriver.Idle.idle_start logic.Axi4.Stream.RxDriver.data_transfer
    logic.Axi4.Stream.RxDriver.turn logic.Axi4.Stream.RxDriver.when_ready
    logic.Axi4.Stream.RxDriver.when_waiting logic.Axi4.Stream.RxDriver.drive_transfer
    logic.Axi4.Stream.RxDriver.drive_lanes logic.Axi4.Stream.RxDriver.drive_byte
    logic.Axi4.Stream.RxDriver.drive_nothing logic.Axi4.Stream.RxDriver.start
finished = refl

on_time : (rx_run_phase plain drawn 2 items edges start_bus 0).timed_out ≡ false
unfolding rx_run_phase logic.Axi4.Stream.RxDriver.RunPhase.serve
    logic.Axi4.Stream.RxDriver.RunPhase.serve_data logic.Axi4.Stream.RxDriver.RunPhase.serve_idle
    logic.Axi4.Stream.RxDriver.Idle.idle_transfer logic.Axi4.Stream.RxDriver.Idle.idle_turn
    logic.Axi4.Stream.RxDriver.Idle.idle_start logic.Axi4.Stream.RxDriver.data_transfer
    logic.Axi4.Stream.RxDriver.turn logic.Axi4.Stream.RxDriver.when_ready
    logic.Axi4.Stream.RxDriver.when_waiting logic.Axi4.Stream.RxDriver.drive_transfer
    logic.Axi4.Stream.RxDriver.drive_lanes logic.Axi4.Stream.RxDriver.drive_byte
    logic.Axi4.Stream.RxDriver.drive_nothing logic.Axi4.Stream.RxDriver.start
on_time = refl

run_delivers_example :
    map collected
      (run_phase (lanes_of 2) 5 (rx_run_phase plain drawn 2 items edges start_bus 0).seen []).1
    ≡ packets_of_items plain 2 items
run_delivers_example =
    run_delivers plain drawn 2 items edges start_bus 0 5 (omega arith) refl
      (All-replicate (λ (e : Edge). e.areset_n ≡ true) 20 open_edge refl) finished on_time

drawn-le : (k : ℕ) → drawn k ≤ 1
drawn-le k = omega arith

abbrev many_edges : List Edge
many_edges = replicate 30 open_edge

rx_finishes_example : (rx_run_phase plain drawn 2 items many_edges start_bus 0).finished ≡ true
rx_finishes_example =
    rx_finishes plain drawn 1 drawn-le 2 items many_edges start_bus 0 (omega arith)
