-- ===== src/Axi4/Stream/Print/RoundTrip.antt =====
-- The printed transactions of a packet show all of it: `packet::do_print` against the reading of its
-- lanes.
use Prim.Native.String.{String}
use logic.Base.{
  ℕ, suc, ◌+◌, ◌*◌, ◌≤◌, ◌≡◌, refl, some, List, [], ◌∷◌, ◌++◌, arith, length, take, drop, map, All,
  All-drop, length-drop, le→leb,
}
use logic.Storage.Number.{IsByte}
use logic.Bitstream.Defs.{Bitstream}
use logic.Axi4.Stream.TdataByte.{TdataByte}
use logic.Axi4.Stream.Packet.{Packet}
use logic.Axi4.Stream.Print.{Call, to_int}
use logic.Axi4.Stream.Print.Transactions.{Transaction, print_transaction, advance, transactions}
use logic.Axi4.Stream.Print.Fields.{print_width, print_width_value}
use logic.Axi4.Stream.Print.PacketPrint.{print_packet, print_transactions, first_width}
use logic.Axi4.Stream.Print.Shows.{
  to_int-IsInt, ShowsId, ShowsTransfer, ShowsTransfers, no_more, one_more, Shown,
}
use logic.Axi4.Stream.Print.Made.{Fits, AreByteData, Made, all_bits-held, make_transaction-Made}

-- What is printed of a transfer shows it.
print_transaction-ShowsTransfer :
    {max_bits time : ℕ} {user : Bitstream} {tdata : List TdataByte} {n : ℕ}
    → (one : Made max_bits time user tdata n)
    → ShowsTransfer n time user (take n tdata) (print_transaction "item" one.out)
unfolding print_transaction
print_transaction-ShowsTransfer {max_bits} {time} {user} {tdata} {n} one = record {
  tuser = one.out.m_tuser;
  tkeep = one.out.m_tkeep;
  tstrb = one.out.m_tstrb;
  tdata = one.out.m_tdata;
  user_size = to_int user.m_size;
  lanes = to_int n;
  bits = to_int (8 * n);
  is_call = rw (one.same_time, one.same_width, one.same_lanes) refl;
  is_user_size = to_int-IsInt user.m_size;
  is_lanes = to_int-IsInt n;
  is_bits = to_int-IsInt (8 * n);
  holds = one.same_user;
  shown = one.shown;
}

transactions-ShowsTransfers :
    (max_bits : ℕ) (times : List ℕ) (users : List Bitstream) (tdata : List TdataByte) (n : ℕ)
    → All (Fits max_bits) users
    → AreByteData tdata
    → length users ≡ length times
    → length tdata ≡ n * length times
    → 8 * n ≤ max_bits
    → (items : List Transaction) × (transactions max_bits times users tdata n ≡ some items)
      × ShowsTransfers n times users tdata (print_transactions items)
unfolding transactions print_transactions
transactions-ShowsTransfers max_bits [] [] [] n f b same total k = ([], refl, no_more)
transactions-ShowsTransfers max_bits [] [] (byte ∷ tdata) n f b same total k = absurd (omega arith)
transactions-ShowsTransfers max_bits [] (user ∷ users) tdata n f b same total k =
    absurd (omega arith)
transactions-ShowsTransfers max_bits (time ∷ times) [] tdata n f b same total k =
    absurd (omega arith)
transactions-ShowsTransfers max_bits (time ∷ times) (user ∷ users) tdata n f b same total k =
    let enough : n ≤ length tdata = rw total (omega (arith, mul-suc n (length times))) in
    let one = make_transaction-Made max_bits time user tdata n f.0 b enough k in
    let (items, listed, all) =
      transactions-ShowsTransfers max_bits times users (drop n tdata) n f.1
        (All-drop (λ (byte : TdataByte). IsByte byte.m_data) n tdata b) (omega arith)
        (omega (arith, length-drop n tdata, mul-suc n (length times))) k in
    (
      one.out ∷ items,
      rw (one.returns, advance_enough n tdata enough, listed) refl,
      one_more (print_transaction-ShowsTransfer one) all,
    )
  where
    advance_enough :
        (n : ℕ) (tdata : List TdataByte) → n ≤ length tdata → advance n tdata ≡ some (drop n tdata)
    advance_enough n tdata h = unfold advance in rw (le→leb n (length tdata) h) refl

    mul-suc : (n m : ℕ) → n * suc m ≡ n + n * m
    mul-suc n m = omega arith

-- What makes a packet printable: as many values of `tuser` as time stamps, and `bus_size` bytes for
-- each, all within the vectors.
pub record IsPrintable (max_bits : ℕ) (p : Packet) : Type 0 where
  pub tid_fits : Fits max_bits p.tid
  pub tdest_fits : Fits max_bits p.tdest
  pub users_fit : All (Fits max_bits) p.tuser
  pub are_bytes : AreByteData p.tdata
  pub users : length p.tuser ≡ length p.timestamps
  pub total : length p.tdata ≡ p.bus_size * length p.timestamps
  pub narrow : 8 * p.bus_size ≤ max_bits

print_width_value-ShowsId :
    (max_bits : ℕ) (name : String) (s : Bitstream)
    → Fits max_bits s
    → (call : Call) × (print_width_value max_bits name s ≡ some call) × ShowsId name s call
unfolding print_width_value
print_width_value-ShowsId max_bits name s f =
    let (value, copied, same) = all_bits-held f in
    (
      _,
      rw copied refl,
      record {
        vector = value;
        vector_size = to_int s.m_size;
        is_call = refl;
        is_size = to_int-IsInt s.m_size;
        holds = same;
      },
    )

first_width-first :
    (users : List Bitstream) → take 1 (map (λ s. s.m_size) users ++ 0 ∷ []) ≡ first_width users ∷ []
unfolding first_width
first_width-first [] = refl
first_width-first (user ∷ users) = refl

-- A packet that has as many values of `tuser` as time stamps, `bus_size` bytes of data for each,
-- and streams and lanes that fit into the printed vectors, prints without an access outside of
-- them, and the packet can be read off the calls of `do_print` alone: the identifiers, each with
-- its width and a vector of that size with its number; the widths of `tuser`, which is that of its
-- first value, `tkeep`, `tstrb` and `tdata`; the number of time stamps; and for each time stamp, in
-- order, an item with the time, a vector of the size of its `tuser` with its number, and vectors of
-- one bit for each lane and of eight, in whose lanes are the next `bus_size` bytes of the data and
-- their types; then the end of the array. Sizes are those of an `int` of 32 bits.
pub print_packet-Shown : (max_bits : ℕ) (p : Packet) → IsPrintable max_bits p → Shown max_bits p
unfolding print_packet print_width
print_packet-Shown max_bits p h =
    let (tid, tid_printed, tid_shown) = print_width_value-ShowsId max_bits "tid" p.tid h.tid_fits in
    let (tdest, tdest_printed, tdest_shown) =
      print_width_value-ShowsId max_bits "tdest" p.tdest h.tdest_fits in
    let (items, listed, all) =
      transactions-ShowsTransfers max_bits p.timestamps p.tuser p.tdata p.bus_size h.users_fit
        h.are_bytes h.users h.total h.narrow in
    record {
      tid = tid;
      tdest = tdest;
      user_width = first_width p.tuser;
      count = to_int (length p.timestamps);
      items = print_transactions items;
      returns = rw (tid_printed, tdest_printed, listed) refl;
      tid_shown = tid_shown;
      tdest_shown = tdest_shown;
      first_user = first_width-first p.tuser;
      is_count = to_int-IsInt (length p.timestamps);
      transfers = all;
    }
