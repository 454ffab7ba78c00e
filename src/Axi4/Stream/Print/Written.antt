-- ===== src/Axi4/Stream/Print/Written.antt =====
-- What the monitor writes can be printed: src/logic/axi4/stream/monitor.cpp with
-- `packet::do_print` of packet.cpp.
use mathlib.Core.Option.{some-injective, none-ne-some}
use logic.Base.{
  ℕ, zero, suc, ◌+◌, ◌*◌, ◌≤◌, ◌≡◌, refl, subst, Option, none, some, List, [], ◌∷◌, arith, length,
  length-append, All, All-append, Bool-cases, if-cases, inl, inr, not, ◌&&◌,
}
use logic.Storage.Number.{IsByte}
use logic.Axi4.Stream.TdataByte.{TdataByte, of_both}
use logic.Axi4.Stream.Packet.{Packet, default_packet}
use logic.Axi4.Stream.BusIf.{BusIf}
use logic.Axi4.Stream.Monitor.PacketMap.{PacketId, Packets, pair_less, find, emplace, update, erase}
use logic.Axi4.Stream.Monitor.{
  get_packet, lane_bytes, add_transfer, transfer, round, written_first, run_phase,
}
use logic.Axi4.Stream.Print.Shows.{Shown}
use logic.Axi4.Stream.Print.Made.{Fits, AreByteData}
use logic.Axi4.Stream.Print.RoundTrip.{print_packet-Shown}

-- The identifiers and the lanes of a bus that a printed packet can hold.
pub record BusFits (max_bits : ℕ) (vif : BusIf) : Type 0 where
  pub tid_fits : Fits max_bits vif.tid
  pub tdest_fits : Fits max_bits vif.tdest
  pub user_fits : Fits max_bits vif.tuser
  pub lanes : (i : ℕ) → IsByte (vif.tdata i)

-- What holds of a packet that is being collected from a bus with `n` lanes.
record IsCollected (max_bits n : ℕ) (p : Packet) : Type 0 where
  tid_fits : Fits max_bits p.tid
  tdest_fits : Fits max_bits p.tdest
  users_fit : All (Fits max_bits) p.tuser
  are_bytes : AreByteData p.tdata
  users : length p.tuser ≡ length p.timestamps
  total : length p.tdata ≡ n * length p.timestamps

lane_bytes-AreByteData :
    (vif : BusIf) (i left : ℕ)
    → ((j : ℕ) → IsByte (vif.tdata j))
    → AreByteData (lane_bytes vif i left)
unfolding lane_bytes of_both
lane_bytes-AreByteData vif i zero h = tt
lane_bytes-AreByteData vif i (suc left) h = (h i, lane_bytes-AreByteData vif (suc i) left h)

length-lane_bytes : (vif : BusIf) (i left : ℕ) → length (lane_bytes vif i left) ≡ left
unfolding lane_bytes
length-lane_bytes vif i zero = refl
length-lane_bytes vif i (suc left) = omega (arith, length-lane_bytes vif (suc i) left)

add_transfer-IsCollected :
    {max_bits : ℕ} (n time : ℕ) {vif : BusIf} {p : Packet}
    → BusFits max_bits vif
    → IsCollected max_bits n p
    → IsCollected max_bits n (add_transfer n time vif p)
unfolding add_transfer
add_transfer-IsCollected {max_bits} n time {vif} {p} b c = record {
  tid_fits = c.tid_fits;
  tdest_fits = c.tdest_fits;
  users_fit = All-append (Fits max_bits) p.tuser (vif.tuser ∷ []) c.users_fit (b.user_fits, tt);
  are_bytes =
      All-append (λ (byte : TdataByte). IsByte byte.m_data) p.tdata (lane_bytes vif 0 n) c.are_bytes
        (lane_bytes-AreByteData vif 0 n b.lanes);
  users = omega (
    arith,
    c.users,
    length-append {0} p.tuser (vif.tuser ∷ []),
    length-append {0} p.timestamps (time ∷ []),
  );
  total =
      rw (length-append p.tdata (lane_bytes vif 0 n), length-append p.timestamps (time ∷ []))
        (more n (length p.timestamps) c.total (length-lane_bytes vif 0 n));
}
  where
    more : (n m : ℕ) {a b : ℕ} → a ≡ n * m → b ≡ n → a + b ≡ n * (m + 1)
    more n m p q = grind (arith, p, q)

-- A property of all packets of the map is kept by its operations.
module _ (P : Packet → Type 0) where
  abbrev AllPackets : Packets → Type 0
  AllPackets packets = All (λ entry. P entry.1) packets

  find-All : (k : PacketId) (m : Packets) {p : Packet} → AllPackets m → find k m ≡ some p → P p
  unfolding find
  find-All k [] h e = cc
  find-All k ((j, old) ∷ m) {p} h e = elim (Bool-cases (pair_less j k)) [
    | inl before ↦ find-All k m h.1 (rw before at e)
    | inr same ↦ elim (Bool-cases (pair_less k j)) [
      | inl after ↦ absurd (none-ne-some p (rw (same, after) at e))
      | inr equal ↦ subst P (some-injective old p (rw (same, equal) at e)) h.0
    ]
  ]

  emplace-All :
      (k : PacketId) (p : Packet) (m : Packets) → P p → AllPackets m → AllPackets (emplace k p m)
  unfolding emplace
  emplace-All k p [] new h = (new, tt)
  emplace-All k p ((j, old) ∷ m) new h = elim (Bool-cases (pair_less j k)) [
    | inl e ↦ rw e (h.0, emplace-All k p m new h.1)
    | inr e ↦ elim (Bool-cases (pair_less k j)) [ inl f ↦ rw (e, f) (new, h) | inr f ↦ rw (e, f) h ]
  ]

  update-All :
      (k : PacketId) (p : Packet) (m : Packets) → P p → AllPackets m → AllPackets (update k p m)
  unfolding update
  update-All k p [] new h = tt
  update-All k p ((j, old) ∷ m) new h = elim (Bool-cases (pair_less j k)) [
    | inl e ↦ rw e (h.0, update-All k p m new h.1)
    | inr e ↦ elim (Bool-cases (pair_less k j)) [
      | inl f ↦ rw (e, f) h
      | inr f ↦ rw (e, f) (new, h.1)
    ]
  ]

  erase-All : (k : PacketId) (m : Packets) → AllPackets m → AllPackets (erase k m)
  unfolding erase
  erase-All k [] h = tt
  erase-All k ((j, old) ∷ m) h = elim (Bool-cases (pair_less j k)) [
    | inl e ↦ rw e (h.0, erase-All k m h.1)
    | inr e ↦ elim (Bool-cases (pair_less k j)) [ inl f ↦ rw (e, f) h | inr f ↦ rw (e, f) h.1 ]
  ]

  get_packet-All :
      (m : Packets) (k : PacketId)
      → P (record default_packet { tid = k.first; tdest = k.second })
      → AllPackets m
      → AllPackets (get_packet m k).0 × P (get_packet m k).1
  unfolding get_packet
  get_packet-All m k new h = by_find (find k m) refl
    where
      by_find :
          (found : Option Packet)
          → find k m ≡ found
          → AllPackets (get_packet m k).0 × P (get_packet m k).1
      by_find none e = rw (get_packet, e) (emplace-All k _ m new h, new)
      by_find (some p) e = rw (get_packet, e) (h, find-All k m h e)

-- A packet to write, if there is one.
abbrev Maybe : (Packet → Type 0) → Option Packet → Type 0
Maybe P none = Unit {0}
Maybe P (some p) = P p

module _ (max_bits n : ℕ) where
  abbrev Open : Packets → Type 0
  Open packets = AllPackets (IsCollected max_bits n) packets

  -- A packet that goes out has the bus size of its last transfer.
  abbrev Complete : Packet → Type 0
  Complete p = IsCollected max_bits n p × (p.bus_size ≡ n)

  add_transfer-Complete :
      (time : ℕ) {vif : BusIf} {p : Packet}
      → BusFits max_bits vif
      → IsCollected max_bits n p
      → Complete (add_transfer n time vif p)
  add_transfer-Complete time {vif} {p} b c =
      (add_transfer-IsCollected n time b c, unfold add_transfer in refl)

  abbrev Kept : Packets × Option Packet → Type 0
  Kept result = Open result.0 × Maybe Complete result.1

  transfer-Kept :
      (time : ℕ) {vif : BusIf} (packets : Packets)
      → BusFits max_bits vif
      → Open packets
      → Kept (transfer n time vif packets)
  unfolding transfer
  transfer-Kept time {vif} packets b h =
      let key : PacketId = record { first = vif.tid; second = vif.tdest } in
      let (present, p) =
        get_packet-All (IsCollected max_bits n) packets key
          (record {
            tid_fits = b.tid_fits;
            tdest_fits = b.tdest_fits;
            users_fit = tt;
            are_bytes = tt;
            users = refl;
            total = omega arith;
          })
          h in
      let out = add_transfer-Complete time b p in
      let kept =
        update-All (IsCollected max_bits n) key (add_transfer n time vif (get_packet packets key).1)
          (get_packet packets key).0 out.0 present in
      if-cases Kept vif.tlast _ _ (λ last. (erase-All (IsCollected max_bits n) key _ kept, out))
        (λ more. (kept, tt))

  round-Kept :
      (time : ℕ) {vif : BusIf} (packets : Packets)
      → BusFits max_bits vif
      → Open packets
      → Kept (round n time vif packets)
  unfolding round
  round-Kept time {vif} packets b h =
      if-cases Kept (not vif.areset_n) _ _ (λ r. (tt, tt))
        (λ r.
          if-cases Kept (vif.tvalid && vif.tready) _ _ (λ s. transfer-Kept time packets b h)
            (λ s. (h, tt)))

  written-Complete :
      (written : Option Packet) (others : List Packet)
      → Maybe Complete written
      → All Complete others
      → All Complete (written_first written others)
  unfolding written_first
  written-Complete none others h k = k
  written-Complete (some p) others h k = (h, k)

  run-Complete :
      (time : ℕ) (vifs : List BusIf) (packets : Packets)
      → All (BusFits max_bits) vifs
      → Open packets
      → All Complete (run_phase n time vifs packets).1
  unfolding run_phase
  run-Complete time [] packets b h = tt
  run-Complete time (vif ∷ rest) packets b h =
      let (open', written) = round-Kept time packets b.0 h in
      written-Complete (round n time vif packets).1 _ written
        (run-Complete (suc time) rest (round n time vif packets).0 b.1 open')

  Complete-Shown : 8 * n ≤ max_bits → (p : Packet) → Complete p → Shown max_bits p
  Complete-Shown k p (c, same) = print_packet-Shown max_bits p (record {
    tid_fits = c.tid_fits;
    tdest_fits = c.tdest_fits;
    users_fit = c.users_fit;
    are_bytes = c.are_bytes;
    users = c.users;
    total = rw same c.total;
    narrow = rw same k;
  })

All-map {ℓ κ μ} :
    {A : Type ℓ} {P : A → Type κ} {Q : A → Type μ} (xs : List A)
    → ((x : A) → P x → Q x)
    → All P xs
    → All Q xs
All-map [] f h = tt
All-map (x ∷ xs) f h = (f x h.0, All-map xs f h.1)

-- Every packet that the monitor writes while the identifiers and lanes of its bus fit into the
-- printed vectors can be printed, with all that `print_packet-Shown` says of it.
pub monitor-Shown :
    (max_bits n time : ℕ) (vifs : List BusIf)
    → 8 * n ≤ max_bits
    → All (BusFits max_bits) vifs
    → All (Shown max_bits) (run_phase n time vifs []).1
monitor-Shown max_bits n time vifs k b =
    All-map _ (Complete-Shown max_bits n k) (run-Complete max_bits n time vifs [] b tt)
