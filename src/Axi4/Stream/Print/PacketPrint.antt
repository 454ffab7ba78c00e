-- ===== src/Axi4/Stream/Print/PacketPrint.antt =====
-- `packet::do_print` of src/logic/axi4/stream/packet.cpp.
use logic.Base.{ℕ, ◌*◌, Option, some, List, [], ◌∷◌, ◌>>=◌, length}
use logic.Bitstream.Defs.{Bitstream}
use logic.Axi4.Stream.Packet.{Packet}
use logic.Axi4.Stream.Print.{Calls, done, ◌⨾◌, to_int, print_array_header, print_array_footer}
use logic.Axi4.Stream.Print.Fields.{print_width, print_width_value}
use logic.Axi4.Stream.Print.Transactions.{Transaction, transactions, print_transaction}

-- `tuser.empty() ? 0 : tuser[0].size()`
unfoldable pub first_width : List Bitstream → ℕ
first_width [] = 0
first_width (first ∷ tuser) = first.m_size

unfoldable pub print_transactions : List Transaction → Calls
print_transactions [] = print_array_footer ⨾ done
print_transactions (t ∷ rest) = print_transaction "item" t ⨾ print_transactions rest

unfoldable pub print_packet : ℕ → Packet → Option Calls
print_packet max_bits p = do
  tid ← print_width_value max_bits "tid" p.tid
  tdest ← print_width_value max_bits "tdest" p.tdest
  items ← transactions max_bits p.timestamps p.tuser p.tdata p.bus_size
  some (
      tid
      ⨾ tdest
      ⨾ print_width "tuser" (first_width p.tuser)
      ⨾ print_width "tkeep" p.bus_size
      ⨾ print_width "tstrb" p.bus_size
      ⨾ print_width "tdata" (8 * p.bus_size)
      ⨾ print_array_header "transaction" (to_int (length p.timestamps))
      ⨾ print_transactions items)
