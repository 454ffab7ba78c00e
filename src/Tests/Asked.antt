-- ===== src/Tests/Asked.antt =====
-- Sequence items (src/logic/axi4/stream/rx_sequence_item.cpp and the other two).
use logic.Base.{some, [], ◌∷◌}
use logic.Bitstream.Defs.{empty}
use logic.Bitstream.Resize.{empty-IsValid}
use logic.Axi4.Stream.Packet.Compare.{Decides}
use logic.Axi4.Stream.Items.Compare.{rx_request, compare_rx-Decides}
use logic.Range.{default_range}
use logic.Axi4.Stream.Items.{RxItem, TxItem, ResetItem, idle_item, compare_rx, default_tx_item}

abbrev pause : RxItem
pause = record {
  type = idle_item;
  tid = empty;
  tdest = empty;
  tuser = empty ∷ [];
  tdata = [];
  idle = default_range;
  timeout = 5;
}

abbrev longer : RxItem
longer = record pause { timeout = 6 }

compare_rx-Decides_example :
    Decides (compare_rx pause (some longer)) (rx_request pause) (rx_request longer)
compare_rx-Decides_example =
    compare_rx-Decides pause longer
      (record {
        tid_valid = empty-IsValid;
        tdest_valid = empty-IsValid;
        tuser_valid = (empty-IsValid, tt);
      })
      (record {
        tid_valid = empty-IsValid;
        tdest_valid = empty-IsValid;
        tuser_valid = (empty-IsValid, tt);
      })

abbrev quick : TxItem
quick = record default_tx_item { timeout = 1 }

abbrev held : ResetItem
held = record { duration = 3; idle = 1 }
