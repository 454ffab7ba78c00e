-- ===== src/Axi4/Stream/Print/Lanes.antt =====
-- What the loops over bits and lanes leave in the printed vectors.
use mathlib.Core.Path.{fun_ext}
use logic.Base.{
  ℕ, zero, suc, ◌+◌, ◌*◌, ◌/◌, ◌%◌, ◌^◌, ◌≤◌, ◌<◌, ◌≡◌, ◌≢◌, refl, sym, ap, ◌∙◌, Bool, false, ◌&&◌,
  some, arith, if◌then◌else◌, ◌==◌, ltb, leb, length, ==_refl, ==_iff, Bool-cases, inl, inr,
  mod-mul, two-pow_pos, lt→ltb, ap₂,
}
use native.Mathlib.Nat.{mod-eq_of_lt, pow-suc}
use logic.Bits.Digit.{digit, digit-suc, bit_of}
use logic.Storage.Number.{IsByte, AreBytes, number}
use logic.Reference.Laws.{read_lem}
use logic.Bitstream.Defs.{Bitstream}
use logic.Bitstream.Whole.{bit}
use logic.Axi4.Stream.TdataByte.{ByteType, data_byte, null_byte, position_byte, reserved, TdataByte}
use logic.Axi4.Stream.Monitor.{tdata_byte_type}
use logic.Axi4.Stream.BusIf.{set_lane}
use logic.Axi4.Stream.Print.{Bits, no_bits, set_bit, set_byte, copy_bits, all_bits}
use logic.Axi4.Stream.Print.Transactions.{Transaction, tkeep_of, tstrb_of, set_byte_lane}

-- The number that the first `n` bits of a vector stand for, and the byte in a lane.
pub bits_value : ℕ → Bits → ℕ
bits_value zero f = 0
bits_value (suc n) f = bit_of (f 0) + 2 * bits_value n (λ i. f (suc i))

bits_value-ext :
    (n : ℕ) (f g : Bits) → ((i : ℕ) → i < n → f i ≡ g i) → bits_value n f ≡ bits_value n g
unfolding bits_value
bits_value-ext zero f g same = refl
bits_value-ext (suc n) f g same =
    ap₂ (λ (b : Bool) (v : ℕ). bit_of b + 2 * v) (same 0 (omega arith))
      (bits_value-ext n (λ i. f (suc i)) (λ i. g (suc i)) (λ i h. same (suc i) (omega arith)))

bit_of-digit : (x : ℕ) → bit_of (x / 2 ^ 0 % 2 == 1) ≡ x % 2
bit_of-digit x = ground arith

bits_value-digit : (n x : ℕ) → bits_value n (λ i. digit x i == 1) ≡ x % 2 ^ n
unfolding bits_value
bits_value-digit zero x = omega arith
bits_value-digit (suc n) x =
    ap₂ (λ (b v : ℕ). b + 2 * v) (bit_of-digit x)
      (ap (bits_value n) (fun_ext (λ i. ap (λ (d : ℕ). d == 1) (digit-suc x i)))
        ∙ bits_value-digit n (x / 2))
    ∙ sym (mod-mul x 2 (2 ^ n) (omega arith) (two-pow_pos n))
    ∙ ap (λ (p : ℕ). x % p) (omega (arith, pow-suc 2 n))

abbrev pub byte_at : Bits → ℕ → ℕ
byte_at bits j = bits_value 8 (λ i. bits (8 * j + i))

-- The byte that `tkeep`, `tstrb` and `tdata` show in a lane.
abbrev pub lane_byte : Bits → Bits → Bits → ℕ → TdataByte
lane_byte tkeep tstrb tdata j = record {
  m_type = tdata_byte_type (tkeep j) (tstrb j);
  m_data = byte_at tdata j;
}

abbrev pub printed_byte : Transaction → ℕ → TdataByte
printed_byte t j = lane_byte t.m_tkeep t.m_tstrb t.m_tdata j

type_decode_printed : (t : ByteType) → tdata_byte_type (tkeep_of t) (tstrb_of t) ≡ t
unfolding tdata_byte_type tkeep_of tstrb_of
type_decode_printed data_byte = refl
type_decode_printed null_byte = refl
type_decode_printed position_byte = refl
type_decode_printed reserved = refl

byte_written :
    (index d : ℕ) (bits : Bits)
    → IsByte d
    → byte_at (λ i. if i / 8 == index then digit d (i % 8) == 1 else bits i) index ≡ d
byte_written index d bits b =
    bits_value-ext 8 _ (λ i. digit d i == 1)
      (λ i h.
        rw ((==_iff ((8 * index + i) / 8) index).1 (omega arith))
          (ap (λ (k : ℕ). digit d k == 1) (omega arith)))
    ∙ bits_value-digit 8 d
    ∙ mod-eq_of_lt b

byte_kept :
    (index j d : ℕ) (bits : Bits)
    → j ≢ index
    → byte_at (λ i. if i / 8 == index then digit d (i % 8) == 1 else bits i) j ≡ byte_at bits j
byte_kept index j d bits ne =
    bits_value-ext 8 _ (λ i. bits (8 * j + i)) (λ i h. rw (other i h) refl)
  where
    other : (i : ℕ) → i < 8 → ((8 * j + i) / 8 == index) ≡ false
    other i h = elim (Bool-cases ((8 * j + i) / 8 == index)) [
      | inl same ↦ absurd (ne (omega (arith, (==_iff ((8 * j + i) / 8) index).0 same)))
      | inr differ ↦ differ
    ]

-- A lane that was set shows its byte, and the other lanes are as before.
pub record LaneSet (max_bits index : ℕ) (byte : TdataByte) (t : Transaction) : Type 0 where
  pub out : Transaction
  pub returns : set_byte_lane max_bits index byte t ≡ some out
  pub shown : printed_byte out index ≡ byte
  pub others : (j : ℕ) → j ≢ index → printed_byte out j ≡ printed_byte t j
  pub same_time : out.m_timestamp ≡ t.m_timestamp
  pub same_user : out.m_tuser ≡ t.m_tuser
  pub same_width : out.m_tuser_width ≡ t.m_tuser_width
  pub same_bytes : out.m_tdata_bytes ≡ t.m_tdata_bytes

module _ (max_bits index : ℕ) (byte : TdataByte) (t : Transaction) where
  abbrev after_lane : Transaction
  after_lane = record t {
    m_tkeep = set_lane index (tkeep_of byte.m_type) t.m_tkeep;
    m_tstrb = set_lane index (tstrb_of byte.m_type) t.m_tstrb;
    m_tdata = λ i. if i / 8 == index then digit byte.m_data (i % 8) == 1 else t.m_tdata i;
  }

  set_byte_lane_returns :
      8 * index + 7 < max_bits → set_byte_lane max_bits index byte t ≡ some after_lane
  unfolding set_byte_lane set_bit set_byte
  set_byte_lane_returns h =
      rw (lt→ltb index max_bits (omega arith), lt→ltb (8 * index + 7) max_bits h)

  pub set_byte_lane-LaneSet :
      IsByte byte.m_data → 8 * index + 7 < max_bits → LaneSet max_bits index byte t
  set_byte_lane-LaneSet b h = record {
    out = after_lane;
    returns = set_byte_lane_returns h;
    shown = rw (==_refl index) (
        ap₂ (λ (k : ByteType) (d : ℕ). let r : TdataByte = record { m_type = k; m_data = d } in r)
          (type_decode_printed byte.m_type) (byte_written index byte.m_data t.m_tdata b));
    others = λ j ne. rw (differ j ne) (
        ap
          (λ (d : ℕ).
            let r : TdataByte = record {
              m_type = tdata_byte_type (t.m_tkeep j) (t.m_tstrb j);
              m_data = d;
            } in
            r)
          (byte_kept index j byte.m_data t.m_tdata ne));
    same_time = refl;
    same_user = refl;
    same_width = refl;
    same_bytes = refl;
  }
    where
      differ : (j : ℕ) → j ≢ index → (j == index) ≡ false
      differ j ne = elim (Bool-cases (j == index)) [
        | inl same ↦ absurd (ne ((==_iff j index).0 same))
        | inr no_match ↦ no_match
      ]

-- A stream that fits is copied bit by bit, and no other bit changes.
copied : ℕ → ℕ → ℕ → Bits → Bits
copied n i left value j = if leb i j && ltb j (i + left) then digit n j == 1 else value j

copied-suc :
    (n i left : ℕ) (value : Bits)
    → copied n (suc i) left (set_lane i (digit n i == 1) value) ≡ copied n i (suc left) value
unfolding copied
copied-suc n i left value = fun_ext (λ j. elim (Bool-cases (j == i)) [
  | inl same ↦ rw ((==_iff j i).0 same) (ground arith)
  | inr differ ↦ ground arith
])

copy_bits_lem :
    (max_bits : ℕ) (s : Bitstream) (left i : ℕ) (value : Bits)
    → AreBytes s.m_bits
    → i + left ≤ 8 * length s.m_bits
    → i + left ≤ max_bits
    → copy_bits max_bits s left i value ≡ some (copied (number s.m_bits) i left value)
unfolding copy_bits set_bit bit
copy_bits_lem max_bits s zero i value b h k = ap some (sym (nothing i value))
  where
    nothing : (i : ℕ) (value : Bits) → copied (number s.m_bits) i zero value ≡ value
    nothing i value = fun_ext (λ j. unfold copied in ground arith)
copy_bits_lem max_bits s (suc left) i value b h k =
    rw (read_lem (bit (some 0) i) s.m_bits b (omega arith), lt→ltb i max_bits (omega arith))
      (copy_bits_lem max_bits s left (suc i) _ b (omega arith) (omega arith)
        ∙ ap some (copied-suc (number s.m_bits) i left value))

-- A printed stream stands for the number that its bits hold.
pub all_bits_lem :
    (max_bits : ℕ) (s : Bitstream)
    → AreBytes s.m_bits
    → s.m_size ≤ 8 * length s.m_bits
    → s.m_size ≤ max_bits
    → (value : Bits) × (all_bits max_bits s ≡ some value)
      × (bits_value s.m_size value ≡ number s.m_bits % 2 ^ s.m_size)
unfolding all_bits
all_bits_lem max_bits s b h k = (
  copied (number s.m_bits) 0 s.m_size no_bits,
  copy_bits_lem max_bits s s.m_size 0 no_bits b (omega arith) (omega arith),
  bits_value-ext s.m_size (copied (number s.m_bits) 0 s.m_size no_bits)
        (λ i. digit (number s.m_bits) i == 1) (inside s.m_size (number s.m_bits))
      ∙ bits_value-digit s.m_size (number s.m_bits),
)
  where
    inside : (m n i : ℕ) → i < m → copied n 0 m no_bits i ≡ (digit n i == 1)
    inside m n i lt = unfold copied in ground arith
