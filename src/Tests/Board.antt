-- ===== src/Tests/Board.antt =====
-- A scoreboard (src/logic/axi4/stream/scoreboard.cpp) and a transmitter driver
-- (src/logic/axi4/stream/tx_driver.cpp).
use logic.Base.{
  ◌≡◌, refl, Bool, true, false, Option, some, List, [], ◌∷◌, ◌↔◌, ◌⊎◌, ◌&&◌, if◌then◌else◌, take,
  map,
}
use logic.Bitstream.Defs.{empty}
use logic.Bitstream.Resize.{empty-IsValid}
use logic.Axi4.Stream.BusIf.{BusIf}
use logic.Axi4.Stream.TdataByte.{data_byte}
use logic.Axi4.Stream.Packet.{Packet, default_packet, do_compare}
use logic.Axi4.Stream.Packet.Compare.{IsWellFormed, content}
use logic.Axi4.Stream.Scoreboard.{Scoreboard, failed, run_checks, scoreboard_error}
use logic.Axi4.Stream.TxDriver.{TxItem, TxState, tx_start, tx_transfer}
use logic.Axi4.Stream.TxDriver.OnePacket.{packets_taken, out_of_reset, tx_takes_one}

abbrev compare : Packet → Packet → Option Bool
compare p q = do_compare p (some q)

abbrev sent : Packet
sent = record default_packet { tdata = record { m_type = data_byte; m_data = 7 } ∷ [] }

sent-IsWellFormed : IsWellFormed sent
sent-IsWellFormed = record {
  tid_valid = empty-IsValid;
  tdest_valid = empty-IsValid;
  tuser_valid = tt;
}

scoreboard_error_example :
    (last : Scoreboard) × (run_checks compare
        (sent ∷ [])
        (sent ∷ sent ∷ [])
        (record { m_error = false })
      ≡ some last)
    × ((failed last ≡ false)
        ↔ (failed (record { m_error = false }) ≡ false)
          × (map content (take 2 (sent ∷ [])) ≡ map content (take 1 (sent ∷ sent ∷ []))))
scoreboard_error_example =
    scoreboard_error compare (λ p q. refl) (sent ∷ []) (sent ∷ sent ∷ [])
      (record { m_error = false }) (sent-IsWellFormed, tt)
      (sent-IsWellFormed, (sent-IsWellFormed, tt))

abbrev item : TxItem
item = record { tid = empty; tdest = empty; timeout = 4; idle = record { m_min = 0; m_max = 0 } }

abbrev offered : BusIf
offered = record {
  areset_n = true;
  tvalid = true;
  tready = true;
  tlast = true;
  tkeep = λ i. true;
  tstrb = λ i. true;
  tdata = λ i. 9;
  tid = empty;
  tdest = empty;
  tuser = empty;
}

tx_takes_one_example :
    (last : TxState) × (returned : Bool) × (seen : List BusIf) × (tx_transfer
        (λ k. 0)
        item
        (offered ∷ offered ∷ offered ∷ [])
        (tx_start (λ k. 0) item false 0)
      ≡ some (last, returned, seen))
    × ((last.timed_out ≡ true) ⊎ (packets_taken item seen ≡ (if last.is_running then 0 else 1)))
    × ((returned && (last.is_running && out_of_reset (offered ∷ offered ∷ offered ∷ []))) ≡ false)
tx_takes_one_example =
    tx_takes_one (λ k. 0) item empty-IsValid empty-IsValid false 0
      (offered ∷ offered ∷ offered ∷ [])
      (
        (empty-IsValid, empty-IsValid),
        ((empty-IsValid, empty-IsValid), ((empty-IsValid, empty-IsValid), tt)),
      )
