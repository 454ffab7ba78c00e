-- ===== src/Axi4/Stream/Monitor/Laws.antt =====
-- src/logic/axi4/stream/monitor.cpp: the packets that `run_phase` collects and writes.
use logic.Base.{
  ℕ, suc, ◌≡◌, refl, ap, ap₂, ◌∙◌, Bool, true, false, not, ◌&&◌, Option, none, some, List, [], ◌∷◌,
  ◌++◌, if◌then◌else◌, Bool-cases, inl, inr, map,
}
use logic.Bitstream.Defs.{Bitstream, is_less}
use logic.Axi4.Stream.TdataByte.{TdataByte}
use logic.Axi4.Stream.Packet.{Packet, default_packet}
use logic.Axi4.Stream.BusIf.{BusIf}
use logic.Axi4.Stream.Monitor.{get_packet, add_transfer, transfer, round, written_first, run_phase}
use logic.Axi4.Stream.RxDriver.Beats.{Beat, beat_of}
use logic.Axi4.Stream.Monitor.PacketMap.{PacketId, pair_less, Packets, find, emplace, update, erase}

-- No key is less than another, since `operator<` of bit streams is always false.
pair_less-false : (a b : PacketId) → pair_less a b ≡ false
unfolding pair_less is_less
pair_less-false a b = refl

-- The identifiers on the bus.
abbrev pub id_of : BusIf → PacketId
id_of vif = record { first = vif.tid; second = vif.tdest }

abbrev opened : BusIf → Packet
opened vif = record default_packet { tid = vif.tid; tdest = vif.tdest }

transfer_empty :
    (bus_size time : ℕ) (vif : BusIf)
    → transfer bus_size time vif [] ≡ (
        let packet = add_transfer bus_size time vif (opened vif) in
        if vif.tlast then ([], some packet) else ((id_of vif, packet) ∷ [], none))
unfolding transfer get_packet find emplace update erase pair_less is_less
transfer_empty bus_size time vif = refl

transfer_single :
    (bus_size time : ℕ) (vif : BusIf) (j : PacketId) (old : Packet)
    → transfer bus_size time vif ((j, old) ∷ []) ≡ (
        let packet = add_transfer bus_size time vif old in
        if vif.tlast then ([], some packet) else ((j, packet) ∷ [], none))
unfolding transfer get_packet find emplace update erase pair_less is_less
transfer_single bus_size time vif j old = refl

-- What was collected of one packet, without the times.
pub record Collected : Type 0 where
  pub tid : Bitstream
  pub tdest : Bitstream
  pub tuser : List Bitstream
  pub tdata : List TdataByte

abbrev pub collected : Packet → Collected
collected packet = record {
  tid = packet.tid;
  tdest = packet.tdest;
  tuser = packet.tuser;
  tdata = packet.tdata;
}

-- What matters at a rising edge.
pub data Event : Type 0 where
  reset : Event
  handshake : Beat → Event

abbrev pub observed : ℕ → List BusIf → List Event
observed bus_size [] = []
observed bus_size (vif ∷ rest) =
    if not vif.areset_n
    then reset ∷ observed bus_size rest
    else if vif.tvalid && vif.tready
    then handshake (beat_of bus_size vif) ∷ observed bus_size rest
    else observed bus_size rest

-- A packet with one more transfer; a new packet takes the identifiers of its first transfer.
abbrev pub joined : Option Collected → Beat → Collected
joined none beat = record {
  tid = beat.tid;
  tdest = beat.tdest;
  tuser = beat.user ∷ [];
  tdata = beat.bytes;
}
joined (some current) beat = record current {
  tuser = current.tuser ++ beat.user ∷ [];
  tdata = current.tdata ++ beat.bytes;
}

-- The packets that a stream of transfers is made of: each ends with a transfer that is the last one,
-- and a reset forgets the one that is open.
abbrev pub reassemble : Option Collected → List Event → List Collected
reassemble current [] = []
reassemble current (reset ∷ events) = reassemble none events
reassemble current (handshake beat ∷ events) =
    if beat.last
    then joined current beat ∷ reassemble none events
    else reassemble (some (joined current beat)) events

-- At most one packet is open.
abbrev as_map : Option (PacketId × Packet) → Packets
as_map none = []
as_map (some entry) = entry ∷ []

abbrev open_of : Option (PacketId × Packet) → Option Collected
open_of none = none
open_of (some entry) = some (collected entry.1)

abbrev packet_of : BusIf → Option (PacketId × Packet) → Packet
packet_of vif none = opened vif
packet_of vif (some entry) = entry.1

abbrev key_of : BusIf → Option (PacketId × Packet) → PacketId
key_of vif none = id_of vif
key_of vif (some entry) = entry.0

transfer_lem :
    (bus_size time : ℕ) (vif : BusIf) (current : Option (PacketId × Packet))
    → transfer bus_size time vif (as_map current) ≡ (
        let packet = add_transfer bus_size time vif (packet_of vif current) in
        if vif.tlast then ([], some packet) else ((key_of vif current, packet) ∷ [], none))
transfer_lem bus_size time vif none = transfer_empty bus_size time vif
transfer_lem bus_size time vif (some (j, old)) = transfer_single bus_size time vif j old

joined_lem :
    (bus_size time : ℕ) (vif : BusIf) (current : Option (PacketId × Packet))
    → collected (add_transfer bus_size time vif (packet_of vif current))
      ≡ joined (open_of current) (beat_of bus_size vif)
unfolding add_transfer
joined_lem bus_size time vif none = refl
joined_lem bus_size time vif (some entry) = refl

module _ (bus_size time : ℕ) (vif : BusIf) (rest : List BusIf) where
  -- The three kinds of rounds: what the monitor does, and what is observed.
  round_reset :
      vif.areset_n ≡ false
      → (packets : Packets)
      → (round bus_size time vif packets ≡ ([], none))
        × (observed bus_size (vif ∷ rest) ≡ reset ∷ observed bus_size rest)
  unfolding round
  round_reset h packets = (rw h refl, rw h refl)

  round_handshake :
      vif.areset_n ≡ true
      → (vif.tvalid && vif.tready) ≡ true
      → (packets : Packets)
      → (round bus_size time vif packets ≡ transfer bus_size time vif packets)
        × (observed bus_size (vif ∷ rest)
            ≡ handshake (beat_of bus_size vif) ∷ observed bus_size rest)
  unfolding round
  round_handshake h k packets = (simp (h, k) refl, simp (h, k) refl)

  round_idle :
      vif.areset_n ≡ true
      → (vif.tvalid && vif.tready) ≡ false
      → (packets : Packets)
      → (round bus_size time vif packets ≡ (packets, none))
        × (observed bus_size (vif ∷ rest) ≡ observed bus_size rest)
  unfolding round
  round_idle h k packets = (simp (h, k) refl, simp (h, k) refl)

-- The rest of a run after a handshake.
module _ (events : List Event) (others : Packets → List Packet)
    (later : (next : Option (PacketId × Packet))
      → map collected (others (as_map next)) ≡ reassemble (open_of next) events) where
  closed_or_kept :
      (last : Bool) (key : PacketId) (packet : Packet) (c : Collected)
      → collected packet ≡ c
      → (let result : Packets × Option Packet =
            if last then ([], some packet) else ((key, packet) ∷ [], none) in
          map collected (written_first result.1 (others result.0)))
        ≡ (if last then c ∷ reassemble none events else reassemble (some c) events)
  unfolding written_first
  closed_or_kept true key packet c e = ap₂ ◌∷◌ e (later none)
  closed_or_kept false key packet c e =
      later (some (key, packet)) ∙ ap (λ c. reassemble (some c) events) e

  after_handshake :
      (bus_size time : ℕ) (vif : BusIf) (current : Option (PacketId × Packet))
      → map collected (
          written_first
            (transfer bus_size time vif (as_map current)).1
            (others (transfer bus_size time vif (as_map current)).0))
        ≡ reassemble (open_of current) (handshake (beat_of bus_size vif) ∷ events)
  after_handshake bus_size time vif current = rw (transfer_lem bus_size time vif current) (
      closed_or_kept vif.tlast (key_of vif current)
        (add_transfer bus_size time vif (packet_of vif current)) _
        (joined_lem bus_size time vif current))

run_reassembles :
    (bus_size time : ℕ) (vifs : List BusIf) (current : Option (PacketId × Packet))
    → map collected (run_phase bus_size time vifs (as_map current)).1
      ≡ reassemble (open_of current) (observed bus_size vifs)
unfolding run_phase written_first
run_reassembles bus_size time [] current = refl
run_reassembles bus_size time (vif ∷ rest) current = elim (Bool-cases vif.areset_n) [
  | inr h ↦
      let (ran, seen) = round_reset bus_size time vif rest h (as_map current) in
      rw (ran, seen) (run_reassembles bus_size (suc time) rest none)
  | inl h ↦ elim (Bool-cases (vif.tvalid && vif.tready)) [
    | inl k ↦
        let (ran, seen) = round_handshake bus_size time vif rest h k (as_map current) in
        rw (ran, seen)
          (after_handshake (observed bus_size rest)
            (λ packets. (run_phase bus_size (suc time) rest packets).1)
            (run_reassembles bus_size (suc time) rest) bus_size time vif current)
    | inr k ↦
        let (ran, seen) = round_idle bus_size time vif rest h k (as_map current) in
        rw (ran, seen) (run_reassembles bus_size (suc time) rest current)
  ]
]

-- The packets that the monitor writes are those of the stream of transfers on the bus, cut after
-- each transfer that has `tlast`, where a packet keeps the identifiers of its first transfer and
-- takes every transfer up to its last, whatever identifiers that one carries; a reset forgets the
-- open packet.
pub monitor_reassembles :
    (bus_size time : ℕ) (vifs : List BusIf)
    → map collected (run_phase bus_size time vifs []).1 ≡ reassemble none (observed bus_size vifs)
monitor_reassembles bus_size time vifs = run_reassembles bus_size time vifs none
