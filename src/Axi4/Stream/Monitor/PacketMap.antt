-- ===== src/Axi4/Stream/Monitor/PacketMap.antt =====
-- `std::map<std::pair<bitstream, bitstream>, packet>`: entries in order, where two keys are the same
-- if neither is less than the other.
use logic.Base.{Bool, not, ◌&&◌, ◌||◌, Option, none, some, List, [], ◌∷◌, if◌then◌else◌}
use logic.Bitstream.Defs.{Bitstream, is_less}
use logic.Axi4.Stream.Packet.{Packet}

-- `packet_id_type`
pub record PacketId : Type 0 where
  pub first : Bitstream
  pub second : Bitstream

-- `operator<` of `std::pair`
unfoldable pub pair_less : PacketId → PacketId → Bool
pair_less a b =
    is_less a.first b.first || (not (is_less b.first a.first) && is_less a.second b.second)

abbrev pub Packets : Type 0
Packets = List (PacketId × Packet)

unfoldable pub find : PacketId → Packets → Option Packet
find k [] = none
find k ((j, packet) ∷ m) =
    if pair_less j k then find k m else if pair_less k j then none else some packet

-- `emplace` keeps an entry that is there.
unfoldable pub emplace : PacketId → Packet → Packets → Packets
emplace k packet [] = (k, packet) ∷ []
emplace k packet ((j, old) ∷ m) =
    if pair_less j k
    then (j, old) ∷ emplace k packet m
    else if pair_less k j
    then (k, packet) ∷ (j, old) ∷ m
    else (j, old) ∷ m

-- A write through the reference that `find` gave.
unfoldable pub update : PacketId → Packet → Packets → Packets
update k packet [] = []
update k packet ((j, old) ∷ m) =
    if pair_less j k
    then (j, old) ∷ update k packet m
    else if pair_less k j
    then (j, old) ∷ m
    else (j, packet) ∷ m

unfoldable pub erase : PacketId → Packets → Packets
erase k [] = []
erase k ((j, packet) ∷ m) =
    if pair_less j k then (j, packet) ∷ erase k m else if pair_less k j then (j, packet) ∷ m else m
