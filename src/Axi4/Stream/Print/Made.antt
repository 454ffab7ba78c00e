-- ===== src/Axi4/Stream/Print/Made.antt =====
-- The transaction that `packet::do_print` of src/logic/axi4/stream/packet.cpp makes of one transfer: its
-- lanes have the next bytes of the packet.
use logic.Base.{
  ℕ, zero, suc, ◌+◌, ◌*◌, ◌≤◌, ◌<◌, ◌≡◌, refl, ap, ap₂, ◌∙◌, Bool, some, List, [], ◌∷◌, arith,
  length, take, All,
}
use logic.Storage.Number.{IsByte}
use logic.Bitstream.Defs.{Bitstream}
use logic.Bitstream.Valid.{IsValid}
use logic.Axi4.Stream.TdataByte.{TdataByte}
use logic.Axi4.Stream.Print.{all_bits, no_bits}
use logic.Axi4.Stream.Print.Transactions.{Transaction, set_lanes, make_transaction}
use logic.Axi4.Stream.Print.Lanes.{set_byte_lane-LaneSet, printed_byte, bits_value, all_bits_lem}
use logic.Axi4.Stream.Print.Shows.{held, read_lanes}

abbrev pub AreByteData : List TdataByte → Type 0
AreByteData = All (λ byte. IsByte byte.m_data)

abbrev printed_bytes : Transaction → ℕ → ℕ → List TdataByte
printed_bytes t i left = read_lanes t.m_tkeep t.m_tstrb t.m_tdata i left

record LanesSet (max_bits : ℕ) (bytes : List TdataByte) (left index : ℕ) (t : Transaction)
    : Type 0 where
  out : Transaction
  returns : set_lanes max_bits bytes left index t ≡ some out
  shown : printed_bytes out index left ≡ take left bytes
  below : (j : ℕ) → j < index → printed_byte out j ≡ printed_byte t j
  same_time : out.m_timestamp ≡ t.m_timestamp
  same_user : out.m_tuser ≡ t.m_tuser
  same_width : out.m_tuser_width ≡ t.m_tuser_width
  same_bytes : out.m_tdata_bytes ≡ t.m_tdata_bytes

set_lanes-LanesSet :
    (max_bits : ℕ) (bytes : List TdataByte) (left index : ℕ) (t : Transaction)
    → AreByteData bytes
    → left ≤ length bytes
    → 8 * (index + left) ≤ max_bits
    → LanesSet max_bits bytes left index t
unfolding set_lanes read_lanes
set_lanes-LanesSet max_bits [] zero index t b h k = record {
  out = t;
  returns = refl;
  shown = refl;
  below = λ j lt. refl;
  same_time = refl;
  same_user = refl;
  same_width = refl;
  same_bytes = refl;
}
set_lanes-LanesSet max_bits [] (suc left) index t b h k = absurd (omega arith)
set_lanes-LanesSet max_bits (byte ∷ bytes) zero index t b h k = record {
  out = t;
  returns = refl;
  shown = refl;
  below = λ j lt. refl;
  same_time = refl;
  same_user = refl;
  same_width = refl;
  same_bytes = refl;
}
set_lanes-LanesSet max_bits (byte ∷ bytes) (suc left) index t b h k =
    let now = set_byte_lane-LaneSet max_bits index byte t b.0 (omega arith) in
    let later =
      set_lanes-LanesSet max_bits bytes left (suc index) now.out b.1 (omega arith) (omega arith) in
    record {
      out = later.out;
      returns = rw now.returns later.returns;
      shown =
          ap₂ (λ (x : TdataByte) (xs : List TdataByte). x ∷ xs)
            (later.below index (omega arith) ∙ now.shown) later.shown;
      below = λ j lt. later.below j (omega arith) ∙ now.others j (λ e. omega (arith, e));
      same_time = later.same_time ∙ now.same_time;
      same_user = later.same_user ∙ now.same_user;
      same_width = later.same_width ∙ now.same_width;
      same_bytes = later.same_bytes ∙ now.same_bytes;
    }

-- A stream whose bits fit into a printed vector.
pub record Fits (max_bits : ℕ) (s : Bitstream) : Type 0 where
  pub valid : IsValid s
  pub short : s.m_size ≤ max_bits

pub all_bits-held :
    {max_bits : ℕ} {s : Bitstream}
    → Fits max_bits s
    → (value : ℕ → Bool) × (all_bits max_bits s ≡ some value) × (bits_value s.m_size value ≡ held s)
all_bits-held {max_bits} {s} f =
    all_bits_lem max_bits s f.valid.are_bytes (omega (arith, f.valid.allocated)) f.short

-- One transfer is printed with the bytes that it takes from the packet.
pub record Made (max_bits time : ℕ) (user : Bitstream) (tdata : List TdataByte) (n : ℕ)
    : Type 0 where
  pub out : Transaction
  pub returns : make_transaction max_bits time user tdata n ≡ some out
  pub shown : printed_bytes out 0 n ≡ take n tdata
  pub same_time : out.m_timestamp ≡ time
  pub same_user : bits_value user.m_size out.m_tuser ≡ held user
  pub same_width : out.m_tuser_width ≡ user.m_size
  pub same_lanes : out.m_tdata_bytes ≡ n

pub make_transaction-Made :
    (max_bits time : ℕ) (user : Bitstream) (tdata : List TdataByte) (n : ℕ)
    → Fits max_bits user
    → AreByteData tdata
    → n ≤ length tdata
    → 8 * n ≤ max_bits
    → Made max_bits time user tdata n
unfolding make_transaction
make_transaction-Made max_bits time user tdata n f b h k =
    let (value, copied, same) = all_bits-held f in
    let lanes = set_lanes-LanesSet max_bits tdata n 0 (started value) b h (omega arith) in
    record {
      out = lanes.out;
      returns = rw copied lanes.returns;
      shown = lanes.shown;
      same_time = lanes.same_time;
      same_user = ap (bits_value user.m_size) lanes.same_user ∙ same;
      same_width = lanes.same_width;
      same_lanes = lanes.same_bytes;
    }
  where
    started : (ℕ → Bool) → Transaction
    started value = record {
      m_timestamp = time;
      m_tuser = value;
      m_tuser_width = user.m_size;
      m_tkeep = no_bits;
      m_tstrb = no_bits;
      m_tdata = no_bits;
      m_tdata_bytes = n;
    }
