-- ===== src/Axi4/Stream/SignalBus/Streams.antt =====
-- The identifiers of include/logic/axi4/stream/bus_if.hpp: what `get_tid` returns after `set_tid`.
use logic.Base.{
  ℕ, zero, suc, ◌+◌, ◌*◌, ◌<◌, ◌≤◌, ◌≡◌, refl, sym, ap, ap₂, ◌∙◌, Bool, true, false, ◌&&◌, Option,
  some, none, List, arith, ◌==◌, ltb, leb, if◌then◌else◌, inl, inr, ◌>>=◌, length, Bool-cases,
  ==_iff, ltb-false, ltb→lt,
}
use logic.Bits.Digit.{digit, bit_of, digit-replaced}
use logic.Storage.Number.{AreBytes, number}
use logic.Reference.{read, write}
use logic.Reference.Laws.{read_lem, write-Written}
use logic.Bitstream.Defs.{make}
use logic.Bitstream.Whole.{bit}
use logic.Utils.{BitsType, uint64}
use logic.Utils.Laws.{Holds, width}
use logic.Utils.Fields.{set_bool-Sets, get_bool_lem, get_bool_undefined, bits_type_middle, Readable}
use logic.Axi4.Stream.SignalBus.{Signal, load, store, get_stream}

bit_of_digit : (d : ℕ) → d < 2 → bit_of (d == 1) ≡ d
bit_of_digit zero h = ground arith
bit_of_digit (suc zero) h = ground arith
bit_of_digit (suc (suc d)) h = absurd (omega arith)

bit_of-lt : (value : Bool) → bit_of value < 2
bit_of-lt true = omega arith
bit_of-lt false = omega arith

-- Digits from `i` on, `left` of them, come from one number and the others from another.
abbrev pub taken : ℕ → ℕ → ℕ → ℕ → ℕ → ℕ
taken from into i left j = if leb i j && ltb j (i + left) then digit from j else digit into j

taken-step :
    (from into next i left j : ℕ)
    → digit next j ≡ (if j == i then digit from i else digit into j)
    → taken from next (suc i) left j ≡ taken from into i (suc left) j
taken-step from into next i left j h = elim (Bool-cases (j == i)) [
  | inl same ↦ at_index j ((==_iff j i).0 same) (h ∙ rw same refl)
  | inr differ ↦ elsewhere differ (h ∙ rw differ refl)
]
  where
    at_index :
        (j : ℕ)
        → j ≡ i
        → digit next j ≡ digit from i
        → taken from next (suc i) left j ≡ taken from into i (suc left) j
    at_index j e h = before j e ∙ h ∙ ap (digit from) (sym e) ∙ sym (rw (inside j e) refl)
      where
        before : (j : ℕ) → j ≡ i → taken from next (suc i) left j ≡ digit next j
        before j e = ground arith

        inside : (j : ℕ) → j ≡ i → (leb i j && ltb j (i + suc left)) ≡ true
        inside j e = ground arith

    elsewhere :
        (j == i) ≡ false
        → digit next j ≡ digit into j
        → taken from next (suc i) left j ≡ taken from into i (suc left) j
    elsewhere differ h =
        ap₂ (λ (b : Bool) (d : ℕ). if b then digit from j else d) (same_range differ) h
      where
        same_range :
            (j == i) ≡ false
            → (leb (suc i) j && ltb j (suc i + left)) ≡ (leb i j && ltb j (i + suc left))
        same_range differ = ground arith

-- `load` writes the bits of a value that can be read.
pub record Loaded (t : BitsType) (value left i : ℕ) (bits : List ℕ) : Type 0 where
  pub out : List ℕ
  pub returns : load t value left i bits ≡ some out
  pub same_length : length out ≡ length bits
  pub are_bytes : AreBytes out
  pub stored : (j : ℕ) → digit (number out) j ≡ taken value (number bits) i left j

pub load-Loaded :
    (t : BitsType) (value left i : ℕ) (bits : List ℕ)
    → AreBytes bits
    → i + left ≤ 8 * length bits
    → ((j : ℕ) → j < i + left → Readable t j)
    → Loaded t value left i bits
unfolding load bit
load-Loaded t value zero i bits b h r = record {
  out = bits;
  returns = refl;
  same_length = refl;
  are_bytes = b;
  stored = λ j. nothing i j (number bits);
}
  where
    nothing : (i j into : ℕ) → digit into j ≡ taken value into i zero j
    nothing i j into = ground arith
load-Loaded t value (suc left) i bits b h r =
    let one = write-Written (digit value i == 1) (bit (some 0) i) bits b (omega arith) in
    let rest =
      load-Loaded t value left (suc i) one.out one.are_bytes (omega (arith, one.same_length))
        (λ j lt. r j (omega arith)) in
    record {
      out = rest.out;
      returns = rw (get_bool_lem t value i (r i (omega arith)), one.returns) rest.returns;
      same_length = rest.same_length ∙ one.same_length;
      are_bytes = rest.are_bytes;
      stored = λ j.
          rest.stored j
          ∙ taken-step value (number bits) (number one.out) i left j (
              ap (λ (x : ℕ). digit x j) (one.stored ∙ refl)
              ∙ digit-replaced (number bits) i (bit_of (digit value i == 1)) j
                  (bit_of-lt (digit value i == 1))
              ∙ turned j);
    }
  where
    swap : (a b : ℕ) → (a == b) ≡ (b == a)
    swap a b = ground arith

    turned :
        (j : ℕ)
        → (if i == j then bit_of (digit value i == 1) else digit (number bits) j)
          ≡ (if j == i then digit value i else digit (number bits) j)
    turned j =
        ap₂ (λ (c : Bool) (d : ℕ). if c then d else digit (number bits) j) (swap i j)
          (bit_of_digit (digit value i) (omega arith))

-- `store` writes the bits of a stream into a value.
pub record Stored (t : BitsType) (bits : List ℕ) (left i value : ℕ) : Type 0 where
  pub out : ℕ
  pub returns : store t bits left i value ≡ some out
  pub stored : (j : ℕ) → j < width t → digit out j ≡ taken (number bits) value i left j

pub store-Stored :
    (t : BitsType) (bits : List ℕ) (left i value : ℕ)
    → AreBytes bits
    → i + left ≤ 8 * length bits
    → i + left ≤ width t
    → Holds t value
    → Stored t bits left i value
unfolding store bit
store-Stored t bits zero i value b h k v = record {
  out = value;
  returns = refl;
  stored = λ j lt. nothing i j value;
}
  where
    nothing : (i j into : ℕ) → digit into j ≡ taken (number bits) into i zero j
    nothing i j into = ground arith
store-Stored t bits (suc left) i value b h k v =
    let one = set_bool-Sets t value i (digit (number bits) i == 1) (omega arith) v in
    let rest = store-Stored t bits left (suc i) one.out b (omega arith) (omega arith) one.holds in
    record {
      out = rest.out;
      returns = rw (read_here i (omega arith), one.returns) rest.returns;
      stored = λ j lt.
          rest.stored j lt
          ∙ taken-step (number bits) value one.out i left j (
              one.stored j lt
              ∙ ap (λ (d : ℕ). if j == i then d else digit value j)
                  (bit_of_digit (digit (number bits) i) (omega arith)));
    }
  where
    read_here :
        (i : ℕ)
        → i < 8 * length bits
        → read (bit (some 0) i) bits ≡ some (digit (number bits) i == 1)
    read_here i lt = read_lem (bit (some 0) i) bits b lt

-- Of a 64-bit word, no stream of more than 32 bits can be read.
load_undefined :
    (value left i : ℕ) (bits : List ℕ)
    → i ≤ 32
    → 32 < i + left
    → load uint64 value left i bits ≡ none
unfolding load
load_undefined value zero i bits h k = absurd (omega arith)
load_undefined value (suc left) i bits h k = elim (Bool-cases (ltb i 32)) [
  | inr stop ↦ rw (get_bool_undefined value i (ltb-false i 32 stop)) refl
  | inl go ↦ rw (get_bool_lem uint64 value i (ltb→lt i 32 go)) (
      after (write (digit value i == 1) (bit (some 0) i) bits)
        (λ bits'. load_undefined value left (suc i) bits' (ltb→lt i 32 go) (omega arith)))
]
  where
    after :
        (result : Option (List ℕ))
        → ((bits' : List ℕ) → load uint64 value left (suc i) bits' ≡ none)
        → (result >>= λ bits'. load uint64 value left (suc i) bits') ≡ none
    after none h = refl
    after (some bits') h = h bits'

pub get_stream_undefined :
    (w : ℕ) (signal : Signal ℕ) → 32 < w → w ≤ 64 → get_stream w signal ≡ none
unfolding get_stream
get_stream_undefined w signal h k =
    rw
      (
        bits_type_middle w h k,
        load_undefined signal.current w 0 (make w).m_bits (omega arith) (omega arith),
      )
      refl
