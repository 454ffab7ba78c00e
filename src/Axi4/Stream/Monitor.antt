-- ===== src/Axi4/Stream/Monitor.antt =====
-- src/logic/axi4/stream/monitor.cpp: collects the transfers of a bus into packets, one for each pair
-- of identifiers, and writes a packet when its last transfer was seen.
pub mod PacketMap
pub mod Laws
use logic.Base.{
  ℕ, zero, suc, ◌+◌, Bool, true, false, not, ◌&&◌, Option, none, some, List, [], ◌∷◌, ◌++◌,
  if◌then◌else◌, ◌==◌,
}
use logic.Bitstream.Defs.{Bitstream}
use logic.Axi4.Stream.TdataByte.{
  ByteType, data_byte, null_byte, position_byte, reserved, TdataByte, of_both,
}
use logic.Axi4.Stream.Packet.{Packet, default_packet}
use logic.Axi4.Stream.BusIf.{BusIf}
use PacketMap.{PacketId, Packets, find, emplace, update, erase}

-- `get_packet`: the map with a packet under that key, and the packet.
unfoldable pub get_packet : Packets → PacketId → Packets × Packet
get_packet packets packet_id = elim (find packet_id packets) [
  | none ↦
      let packet : Packet = record default_packet {
        tid = packet_id.first;
        tdest = packet_id.second;
      } in
      (emplace packet_id packet packets, packet)
  | some packet ↦ (packets, packet)
]

-- The type of the byte in a lane.
unfoldable pub tdata_byte_type : Bool → Bool → ByteType
tdata_byte_type tkeep tstrb =
    if tkeep && tstrb
    then data_byte
    else if tkeep && not tstrb
    then position_byte
    else if not tkeep && tstrb
    then reserved
    else null_byte

-- `for (auto i = 0u; i < bus_size; ++i)`: the bytes that are added, `left` lanes from `i` on.
unfoldable pub lane_bytes : BusIf → ℕ → ℕ → List TdataByte
lane_bytes vif i zero = []
lane_bytes vif i (suc left) =
    of_both (vif.tdata i) (tdata_byte_type (vif.tkeep i) (vif.tstrb i))
    ∷ lane_bytes vif (suc i) left

-- `m_vif->size() ? m_vif->size() : 1`
unfoldable pub lanes_of : ℕ → ℕ
lanes_of size = if size == 0 then 1 else size

-- The transfer that is on the bus, added to a packet.
unfoldable pub add_transfer : ℕ → ℕ → BusIf → Packet → Packet
add_transfer bus_size time vif packet = record packet {
  timestamps = packet.timestamps ++ time ∷ [];
  tuser = packet.tuser ++ vif.tuser ∷ [];
  bus_size = bus_size;
  tdata = packet.tdata ++ lane_bytes vif 0 bus_size;
}

-- A handshake: the map after it, and the packet that is written to the analysis port.
unfoldable pub transfer : ℕ → ℕ → BusIf → Packets → Packets × Option Packet
transfer bus_size time vif packets =
    let packet_id : PacketId = record { first = vif.tid; second = vif.tdest } in
    let (present, packet) = get_packet packets packet_id in
    let packet' = add_transfer bus_size time vif packet in
    if vif.tlast
    then (erase packet_id (update packet_id packet' present), some packet')
    else (update packet_id packet' present, none)

-- One round of `run_phase`, between two rising edges.
unfoldable pub round : ℕ → ℕ → BusIf → Packets → Packets × Option Packet
round bus_size time vif packets =
    if not vif.areset_n
    then ([], none)
    else if vif.tvalid && vif.tready
    then transfer bus_size time vif packets
    else (packets, none)

unfoldable pub written_first : Option Packet → List Packet → List Packet
written_first none others = others
written_first (some packet) others = packet ∷ others

-- The packets written while the bus goes through the given values, one for each rising edge.
unfoldable pub run_phase : ℕ → ℕ → List BusIf → Packets → Packets × List Packet
run_phase bus_size time [] packets = (packets, [])
run_phase bus_size time (vif ∷ rest) packets =
    let (packets', written) = round bus_size time vif packets in
    let (last, others) = run_phase bus_size (suc time) rest packets' in
    (last, written_first written others)
