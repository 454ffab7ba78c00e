-- ===== src/Tests/Printing.antt =====
-- What a packet prints as (src/logic/axi4/stream/packet.cpp).
use logic.Base.{ℕ, ◌+◌, ◌%◌, true, false, [], ◌∷◌, arith, All, refl}
use logic.Bitstream.Defs.{Bitstream, empty}
use logic.Bitstream.Resize.{empty-IsValid}
use logic.Axi4.Stream.TdataByte.{data_byte, null_byte, reserved}
use logic.Axi4.Stream.Packet.{Packet}
use logic.Axi4.Stream.BusIf.{BusIf}
use logic.Axi4.Stream.Monitor.{run_phase}
use logic.Axi4.Stream.Print.Shows.{Shown}
use logic.Axi4.Stream.Print.Made.{Fits}
use logic.Axi4.Stream.Print.RoundTrip.{print_packet-Shown}
use logic.Axi4.Stream.Print.Written.{BusFits, monitor-Shown}

abbrev user : Bitstream
user = record { m_bits = 0x05 ∷ []; m_size = 3 }

user-Fits : Fits 64 user
user-Fits = record {
  valid = record { fits = omega arith; allocated = omega arith; are_bytes = (omega arith, tt) };
  short = omega arith;
}

empty-Fits : Fits 64 empty
empty-Fits = record { valid = empty-IsValid; short = omega arith }

-- Two transfers on a bus of two lanes.
abbrev printed : Packet
printed = record {
  tid = user;
  tdest = empty;
  tuser = user ∷ empty ∷ [];
  tdata =
      record { m_type = data_byte; m_data = 0x11 }
      ∷ record { m_type = reserved; m_data = 0x22 }
      ∷ record { m_type = data_byte; m_data = 0x33 }
      ∷ record { m_type = null_byte; m_data = 0x00 }
      ∷ [];
  timestamps = 10 ∷ 12 ∷ [];
  bus_size = 2;
}

print_packet-Shown_example : Shown 64 printed
print_packet-Shown_example = print_packet-Shown 64 printed (record {
  tid_fits = user-Fits;
  tdest_fits = empty-Fits;
  users_fit = (user-Fits, (empty-Fits, tt));
  are_bytes = (omega arith, (omega arith, (omega arith, (omega arith, tt))));
  users = refl;
  total = refl;
  narrow = omega arith;
})

abbrev lane_data : ℕ → ℕ
lane_data i = (17 + i) % 256

abbrev transferring : BusIf
transferring = record {
  areset_n = true;
  tvalid = true;
  tready = true;
  tlast = true;
  tkeep = λ i. true;
  tstrb = λ i. false;
  tdata = lane_data;
  tid = user;
  tdest = empty;
  tuser = user;
}

transferring-BusFits : BusFits 64 transferring
transferring-BusFits = record {
  tid_fits = user-Fits;
  tdest_fits = empty-Fits;
  user_fits = user-Fits;
  lanes = λ i. omega arith;
}

monitor-Shown_example : All (Shown 64) (run_phase 2 0 (transferring ∷ transferring ∷ []) []).1
monitor-Shown_example =
    monitor-Shown 64 2 0 (transferring ∷ transferring ∷ []) (omega arith)
      (transferring-BusFits, (transferring-BusFits, tt))
