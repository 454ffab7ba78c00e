-- ===== src/Tests/Bytes.antt =====
-- Bytes and packets (src/logic/axi4/stream/tdata_byte.cpp, src/logic/axi4/stream/packet.cpp).
use logic.Base.{some, [], ◌∷◌}
use logic.Bitstream.Defs.{empty}
use logic.Bitstream.Resize.{empty-IsValid}
use logic.Axi4.Stream.TdataByte.{TdataByte, position_byte, data_byte}
use logic.Axi4.Stream.Packet.{Packet, default_packet, do_compare}
use logic.Axi4.Stream.Packet.Compare.{IsWellFormed, Decides, content, do_compare-Decides}

abbrev one : TdataByte
one = record { m_type = position_byte; m_data = 7 }

abbrev two : TdataByte
two = record { m_type = data_byte; m_data = 7 }

abbrev first_packet : Packet
first_packet = record default_packet { tuser = empty ∷ []; tdata = one ∷ two ∷ [] }

first_packet-IsWellFormed : IsWellFormed first_packet
first_packet-IsWellFormed = record {
  tid_valid = empty-IsValid;
  tdest_valid = empty-IsValid;
  tuser_valid = (empty-IsValid, tt);
}

abbrev other_packet : Packet
other_packet = record default_packet { tuser = empty ∷ []; tdata = one ∷ one ∷ [] }

other_packet-IsWellFormed : IsWellFormed other_packet
other_packet-IsWellFormed = record {
  tid_valid = empty-IsValid;
  tdest_valid = empty-IsValid;
  tuser_valid = (empty-IsValid, tt);
}

do_compare-Decides_example :
    Decides
      (do_compare first_packet (some other_packet))
      (content first_packet)
      (content other_packet)
do_compare-Decides_example =
    do_compare-Decides first_packet other_packet first_packet-IsWellFormed other_packet-IsWellFormed
