-- ===== src/Axi4/Stream/RxDriver/Sending.antt =====
-- What every turn of the loop of `data_transfer` in src/logic/axi4/stream/rx_driver.cpp keeps.
use logic.Base.{
  ℕ, suc, ◌+◌, ◌*◌, ◌≤◌, ◌<◌, min, ◌≡◌, refl, sym, ap, ap₂, ◌∙◌, subst, Bool, true, false, ◌&&◌,
  List, arith, length, get_elem?, drop, leb, leb→le, leb-false, if◌then◌else◌, ◌==◌, Bool-cases,
  inl, inr,
}
use logic.Axi4.Stream.TdataByte.{TdataByte}
use logic.Axi4.Stream.BusIf.{BusIf, Widths, set_tvalid, set_tlast}
use logic.Axi4.Stream.Monitor.{lane_bytes}
use logic.Axi4.Stream.RxDriver.{
  RxItem, RxState, Edge, at_edge, user_value, drive_lanes, drive_transfer, when_ready, when_waiting,
  turn,
}
use logic.Axi4.Stream.RxDriver.Lanes.{padded, drive_lanes-Driven}
use logic.Axi4.Stream.RxDriver.Beats.{Beat, beat_of, lane_bytes_ext, drop-min, nth_beat}

suc-mul : (k b : ℕ) → suc k * b ≡ k * b + b
suc-mul k b = omega arith

module _ (widths : Widths) (random_idle : ℕ → ℕ) (item : RxItem) (bus_size : ℕ) where
  -- After `taken` handshakes: where the driver is in the item, and what is on the bus.
  pub record Sending (taken : ℕ) (s : RxState) : Type 0 where
    pub index : s.index ≡ min (s.transfer * bus_size) (length item.tdata)
    pub close : s.transfer * bus_size < length item.tdata + bus_size
    pub count : s.transfer ≡ (if s.vif.tvalid then suc taken else taken)
    pub held : s.vif.tvalid ≡ true → beat_of bus_size s.vif ≡ nth_beat widths item bus_size taken
    pub done :
        s.is_running ≡ false
        → s.timed_out ≡ false
        → (s.vif.tvalid ≡ false) × (length item.tdata ≤ s.index)

  next_index : RxState → ℕ
  next_index s = (drive_transfer widths random_idle item bus_size s).index

  next_index_lem :
      (s : RxState)
      → s.index ≡ min (s.transfer * bus_size) (length item.tdata)
      → s.index < length item.tdata
      → 0 < bus_size
      → next_index s ≡ min (suc s.transfer * bus_size) (length item.tdata)
  unfolding next_index drive_transfer
  next_index_lem s e l p = rw (positive bus_size p) (
      (drive_lanes-Driven item.tdata bus_size 0 s.index s.vif).advanced (omega arith)
      ∙ counted (s.transfer * bus_size) (length item.tdata) e l
      ∙ ap (λ m. min m (length item.tdata)) (sym (suc-mul s.transfer bus_size)))
    where
      positive : (b : ℕ) → 0 < b → (b == 0) ≡ false
      positive b p = ground arith

      counted :
          (m n : ℕ)
          → s.index ≡ min m n
          → s.index < n
          → min (s.index + bus_size) n ≡ min (m + bus_size) n
      counted m n e l = omega arith

  leb-min : (n m : ℕ) → leb n (min m n) ≡ leb n m
  leb-min n m = ground arith

  module _ (s : RxState) (e : s.index ≡ min (s.transfer * bus_size) (length item.tdata))
      (l : s.index < length item.tdata) (p : 0 < bus_size) where
    driven_bytes :
        lane_bytes (drive_transfer widths random_idle item bus_size s).vif 0 bus_size
        ≡ padded bus_size (drop (s.transfer * bus_size) item.tdata)
    unfolding drive_transfer set_tvalid set_tlast
    driven_bytes =
        lane_bytes_ext _ (drive_lanes item.tdata bus_size 0 s.index s.vif).1 refl refl refl bus_size
          0
        ∙ (drive_lanes-Driven item.tdata bus_size 0 s.index s.vif).lanes
        ∙ ap (λ k. padded bus_size (drop k item.tdata)) e
        ∙ ap (padded bus_size) (drop-min (s.transfer * bus_size) item.tdata)

    driven_last :
        (drive_transfer widths random_idle item bus_size s).vif.tlast
        ≡ leb (length item.tdata) (suc s.transfer * bus_size)
    unfolding drive_transfer set_tvalid set_tlast next_index
    driven_last =
        ap (leb (length item.tdata)) (next_index_lem s e l p)
        ∙ leb-min (length item.tdata) (suc s.transfer * bus_size)

    drive_transfer-beat :
        beat_of bus_size (drive_transfer widths random_idle item bus_size s).vif
        ≡ nth_beat widths item bus_size s.transfer
    unfolding drive_transfer set_tvalid set_tlast
    drive_transfer-beat =
        ap₂ with_bytes (unfold drive_transfer set_tvalid set_tlast in driven_bytes) driven_last
      where
        with_bytes : List TdataByte → Bool → Beat
        with_bytes bytes last = record {
          bytes = bytes;
          last = last;
          user = user_value widths (get_elem? item.tuser s.transfer);
          tid = widths.fit_tid item.tid;
          tdest = widths.fit_tdest item.tdest;
        }

    counted_close :
        (t : ℕ)
        → s.index ≡ min (t * bus_size) (length item.tdata)
        → s.index < length item.tdata
        → suc t * bus_size < length item.tdata + bus_size
    counted_close t e l = omega arith

    drive_transfer-Sending :
        s.is_running ≡ true → Sending s.transfer (drive_transfer widths random_idle item bus_size s)
    drive_transfer-Sending running = record {
      index = unfold drive_transfer next_index in next_index_lem s e l p;
      close = unfold drive_transfer in counted_close s.transfer e l;
      count = unfold drive_transfer set_tvalid in refl;
      held = λ c. drive_transfer-beat;
      done = unfold drive_transfer in (λ r t. cc);
    }

  module _ (positive : 0 < bus_size) where
    when_ready-Sending :
        (taken : ℕ) (s : RxState)
        → s.is_running ≡ true
        → Sending taken s
        → Sending s.transfer (when_ready widths random_idle item bus_size s)
    unfolding when_ready set_tvalid
    when_ready-Sending taken s running sending =
        elim (Bool-cases (leb (length item.tdata) s.index)) [
          | inl h ↦ rw h (record {
            index = sending.index;
            close = sending.close;
            count = refl;
            held = λ c. cc;
            done = λ r t. (refl, leb→le _ _ h);
          })
          | inr h ↦ rw h (elim (Bool-cases (s.idle == 0)) [
            | inl i ↦
                rw i (drive_transfer-Sending _ sending.index (leb-false _ _ h) positive running)
            | inr i ↦ rw i (record {
              index = sending.index;
              close = sending.close;
              count = refl;
              held = λ c. cc;
              done = λ r t. cc;
            })
          ])
        ]

    when_waiting-Sending :
        (taken : ℕ) (s : RxState)
        → s.is_running ≡ true
        → Sending taken s
        → Sending taken (when_waiting widths random_idle item bus_size s)
    unfolding when_waiting
    when_waiting-Sending taken s running sending = elim (Bool-cases (item.timeout == 0)) [
      | inl h ↦ rw h sending
      | inr h ↦ rw h (elim (Bool-cases (s.timeout == 0)) [
        | inl i ↦ rw i (record {
          index = sending.index;
          close = sending.close;
          count = sending.count;
          held = sending.held;
          done = λ r t. cc;
        })
        | inr i ↦ rw i (record {
          index = sending.index;
          close = sending.close;
          count = sending.count;
          held = sending.held;
          done = sending.done;
        })
      ])
    ]

    pub beat_at_edge :
        (edge : Edge) (vif : BusIf) → beat_of bus_size (at_edge edge vif) ≡ beat_of bus_size vif
    beat_at_edge edge vif =
        ap
          (λ bytes.
            let beat : Beat = record {
              bytes = bytes;
              last = vif.tlast;
              user = vif.tuser;
              tid = vif.tid;
              tdest = vif.tdest;
            } in
            beat)
          (lane_bytes_ext (at_edge edge vif) vif refl refl refl bus_size 0)

    at_edge-Sending :
        (taken : ℕ) (edge : Edge) (s : RxState)
        → Sending taken s
        → Sending taken (record s { vif = at_edge edge s.vif })
    at_edge-Sending taken edge s sending = record {
      index = sending.index;
      close = sending.close;
      count = sending.count;
      held = λ v. beat_at_edge edge s.vif ∙ sending.held v;
      done = sending.done;
    }

    retaken : (s : RxState) (m n : ℕ) → m ≡ n → Sending m s → Sending n s
    retaken s m n e = subst (λ n. Sending n s) e

    shown :
        (taken : ℕ) (v : Bool)
        → (if v then suc taken else taken) ≡ (if v && true then suc taken else taken)
    shown taken true = refl
    shown taken false = refl

    hidden : (taken : ℕ) (v : Bool) → taken ≡ (if v && false then suc taken else taken)
    hidden taken true = refl
    hidden taken false = refl

    turn-Sending_at :
        (areset_n tready : Bool) (taken : ℕ) (s : RxState)
        → s.is_running ≡ true
        → Sending taken s
        → Sending (if s.vif.tvalid && tready then suc taken else taken) (
            turn widths random_idle item bus_size
              (record { areset_n = areset_n; tready = tready })
              s)
    unfolding turn
    turn-Sending_at areset_n true taken s running sending =
        let at = at_edge-Sending taken (record { areset_n = areset_n; tready = true }) s sending in
        retaken _ _ _ (sending.count ∙ shown taken s.vif.tvalid)
          (when_ready-Sending taken _ running at)
    turn-Sending_at areset_n false taken s running sending =
        let at = at_edge-Sending taken (record { areset_n = areset_n; tready = false }) s sending in
        retaken _ _ _ (hidden taken s.vif.tvalid) (when_waiting-Sending taken _ running at)

    pub turn-Sending :
        (taken : ℕ) (edge : Edge) (s : RxState)
        → s.is_running ≡ true
        → Sending taken s
        → Sending
            (if s.vif.tvalid && edge.tready then suc taken else taken)
            (turn widths random_idle item bus_size edge s)
    turn-Sending taken edge s = turn-Sending_at edge.areset_n edge.tready taken s
