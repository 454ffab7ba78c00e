-- ===== src/Reference/Laws.antt =====
-- A reference reads and writes one binary digit of the number in the buffer.
use mathlib.Core.Option
use logic.Base.{
  ℕ, zero, suc, ◌+◌, ◌-◌, ◌*◌, ◌/◌, ◌%◌, ◌^◌, ◌≤◌, ◌<◌, ◌≡◌, refl, sym, ap, subst, ◌∙◌, Option,
  Bool, false, true, some, List, [], ◌∷◌, arith, length, get_elem?, ◌==◌, ==_iff, if◌then◌else◌,
  bit_and, two-pow-add, two-pow_pos, ◌>>=◌,
}
use native.Mathlib.Nat.{mod-eq_of_lt}
use logic.Bits.{bit_and-shifted, bit_or-shifted, bit_and-cleared}
use logic.Bits.Digit.{bit_of, digit, digit-le, replaced, digit-replaced}
use logic.Storage.{modify}
use logic.Storage.Masks.{below_eight, complement_lem, pow-le_byte}
use logic.Storage.Number.{IsByte, AreBytes, number, div-byte}
use logic.Reference.{Reference, mask_of, write_byte, write, read}

mask_of_lem : (i : ℕ) → mask_of i ≡ 2 ^ (i % 8)
unfolding mask_of
mask_of_lem i = mod-eq_of_lt (omega (arith, pow-le_byte (i % 8) (omega arith)))

write_byte_lem :
    (value : Bool) (k byte : ℕ)
    → k < 8
    → IsByte byte
    → write_byte value (2 ^ k) byte ≡ replaced byte k (bit_of value)
unfolding write_byte
write_byte_lem true k byte h b = bit_or-shifted k byte h b ∙ omega (arith, digit-le byte k)
write_byte_lem false k byte h b =
    ap (bit_and byte) (complement_lem (2 ^ k) (omega (arith, pow-le_byte k h)))
    ∙ bit_and-cleared k byte h b
    ∙ omega arith

-- A digit below the eighth is one of the lowest byte, and the others are those of the rest.
digit-byte : (b rest k : ℕ) → k < 8 → digit (b + 256 * rest) k ≡ digit b k
digit-byte b rest =
    below_eight (λ k. digit (b + 256 * rest) k ≡ digit b k) (omega arith) (omega arith)
      (omega arith) (omega arith) (omega arith) (omega arith) (omega arith) (omega arith)

digit-rest : (b rest k : ℕ) → b < 256 → digit (b + 256 * rest) (8 + k) ≡ digit rest k
digit-rest b rest k h = ap (λ (t : ℕ). t % 2) (div-byte b rest k h)

test_digit : (x k : ℕ) → (digit x k * 2 ^ k == 2 ^ k) ≡ (digit x k == 1)
test_digit x k = on_digit (x / 2 ^ k % 2) (2 ^ k) (omega arith) (two-pow_pos k)
  where
    on_digit : (d p : ℕ) → d < 2 → 1 ≤ p → (d * p == p) ≡ (d == 1)
    on_digit zero p h pos = ground arith
    on_digit (suc zero) p h pos = (==_iff (1 * p) p).1 (omega arith)
    on_digit (suc (suc d)) p h pos = absurd (omega arith)

bit_of-lt : (value : Bool) → bit_of value < 2
bit_of-lt true = omega arith
bit_of-lt false = omega arith

replaced-IsByte : (b v k : ℕ) → k < 8 → v < 2 → IsByte b → IsByte (replaced b k v)
replaced-IsByte b v =
    below_eight (λ k. v < 2 → IsByte b → IsByte (replaced b k v)) (λ l h. omega arith)
      (λ l h. omega arith) (λ l h. omega arith) (λ l h. omega arith) (λ l h. omega arith)
      (λ l h. omega arith) (λ l h. omega arith) (λ l h. omega arith)

replaced-byte :
    (b rest v k : ℕ) → k < 8 → replaced b k v + 256 * rest ≡ replaced (b + 256 * rest) k v
replaced-byte b rest v =
    below_eight (λ k. replaced b k v + 256 * rest ≡ replaced (b + 256 * rest) k v) (omega arith)
      (omega arith) (omega arith) (omega arith) (omega arith) (omega arith) (omega arith)
      (omega arith)

replaced-rest :
    (b rest v k : ℕ) → b < 256 → b + 256 * replaced rest k v ≡ replaced (b + 256 * rest) (8 + k) v
replaced-rest b rest v k h =
    omega (arith, digit-le rest k)
    ∙ ap (λ (p : ℕ). b + 256 * rest - digit rest k * p + v * p) (sym (two-pow-add 8 k))
    ∙ ap (λ (d : ℕ). b + 256 * rest - d * 2 ^ (8 + k) + v * 2 ^ (8 + k))
        (sym (digit-rest b rest k h))

at_rest : (q k : ℕ) → 8 + (8 * q + k) ≡ 8 * suc q + k
at_rest q k = omega arith

at_first : (k : ℕ) → k ≡ 8 * 0 + k
at_first k = omega arith

-- What a byte test finds, at byte `q` and bit `k` of the buffer.
read_at :
    (bits : List ℕ) (q k : ℕ)
    → AreBytes bits
    → k < 8
    → q < length bits
    → (get_elem? bits q >>= λ byte. some (bit_and byte (2 ^ k) == 2 ^ k))
      ≡ some (digit (number bits) (8 * q + k) == 1)
unfolding number
read_at [] q k h small p = absurd (omega arith)
read_at (b ∷ bits) zero k h small p = ap some (
    ap (λ t. t == 2 ^ k) (bit_and-shifted k b small h.0)
    ∙ test_digit b k
    ∙ ap (λ t. t == 1) (sym (digit-byte b (number bits) k small))
    ∙ ap (λ i. digit (b + 256 * number bits) i == 1) (at_first k))
read_at (b ∷ bits) (suc q) k h small p =
    read_at bits q k h.1 small (omega arith)
    ∙ ap some (
        ap (λ t. t == 1) (sym (digit-rest b (number bits) (8 * q + k) h.0))
        ∙ ap (λ i. digit (b + 256 * number bits) i == 1) (at_rest q k))

-- The buffer after digit `i` was written.
pub record Written (value : Bool) (i : ℕ) (bits : List ℕ) (result : Option (List ℕ)) : Type 0 where
  pub out : List ℕ
  pub returns : result ≡ some out
  pub same_length : length out ≡ length bits
  pub are_bytes : AreBytes out
  pub stored : number out ≡ replaced (number bits) i (bit_of value)

write_at :
    (value : Bool) (bits : List ℕ) (q k : ℕ)
    → AreBytes bits
    → k < 8
    → q < length bits
    → Written value (8 * q + k) bits (modify (write_byte value (2 ^ k)) bits q)
write_at value [] q k h small p = absurd (omega arith)
write_at value (b ∷ bits) zero k h small p = record {
  out = replaced b k (bit_of value) ∷ bits;
  returns = unfold modify in ap (λ t. some (t ∷ bits)) (write_byte_lem value k b small h.0);
  same_length = refl;
  are_bytes = (replaced-IsByte b (bit_of value) k small (bit_of-lt value) h.0, h.1);
  stored =
      unfold number in
      replaced-byte b (number bits) (bit_of value) k small
      ∙ ap (λ i. replaced (b + 256 * number bits) i (bit_of value)) (at_first k);
}
write_at value (b ∷ bits) (suc q) k h small p =
    later (write_at value bits q k h.1 small (omega arith))
  where
    later :
        Written value (8 * q + k) bits (modify (write_byte value (2 ^ k)) bits q)
        → Written value
            (8 * suc q + k)
            (b ∷ bits)
            (modify (write_byte value (2 ^ k)) (b ∷ bits) (suc q))
    later rest = record {
      out = b ∷ rest.out;
      returns = unfold modify in ap (Option.map (λ t. b ∷ t)) rest.returns;
      same_length = ap suc rest.same_length;
      are_bytes = (h.0, rest.are_bytes);
      stored =
          unfold number in
          ap (λ (t : ℕ). b + 256 * t) rest.stored
          ∙ replaced-rest b (number bits) (bit_of value) (8 * q + k) h.0
          ∙ ap (λ i. replaced (b + 256 * number bits) i (bit_of value)) (at_rest q k);
    }

parts : (i : ℕ) → 8 * (i / 8) + i % 8 ≡ i
parts i = omega arith

-- Reading a bit inside the buffer returns that digit of its number.
pub read_lem :
    (r : Reference) (bits : List ℕ)
    → AreBytes bits
    → r.m_index < 8 * length bits
    → read r bits ≡ some (digit (number bits) r.m_index == 1)
unfolding read
read_lem r bits h inside = rw mask_of_lem (
    read_at bits (r.m_index / 8) (r.m_index % 8) h (omega arith) (omega arith)
    ∙ ap (λ i. some (digit (number bits) i == 1)) (parts r.m_index))

-- Writing a bit inside the buffer returns a buffer of as many bytes, in which that binary digit of
-- the number it holds is replaced, and nothing else.
pub write-Written :
    (value : Bool) (r : Reference) (bits : List ℕ)
    → AreBytes bits
    → r.m_index < 8 * length bits
    → Written value r.m_index bits (write value r bits)
unfolding write
write-Written value r bits h inside = rw mask_of_lem (
    subst
      (λ i.
        Written value i bits (modify (write_byte value (2 ^ (r.m_index % 8))) bits (r.m_index / 8)))
      (parts r.m_index)
      (write_at value bits (r.m_index / 8) (r.m_index % 8) h (omega arith) (omega arith)))

bit_of_test : (value : Bool) → (bit_of value == 1) ≡ value
bit_of_test true = refl
bit_of_test false = refl

-- After a write of a bit inside the buffer, that bit reads as written and every other bit of the
-- buffer as before.
pub read-write :
    (value : Bool) (i j : ℕ) (p : Option ℕ) (bits : List ℕ)
    → AreBytes bits
    → i < 8 * length bits
    → j < 8 * length bits
    → (out : List ℕ) × (write value (record { m_bits = p; m_index = i }) bits ≡ some out)
      × (read (record { m_bits = p; m_index = j }) out
          ≡ (if i == j then some value else read (record { m_bits = p; m_index = j }) bits))
read-write value i j p bits h hi hj =
    from (write-Written value (record { m_bits = p; m_index = i }) bits h hi)
  where
    from :
        Written value i bits (write value (record { m_bits = p; m_index = i }) bits)
        → (out : List ℕ) × (write value (record { m_bits = p; m_index = i }) bits ≡ some out)
          × (read (record { m_bits = p; m_index = j }) out
              ≡ (if i == j then some value else read (record { m_bits = p; m_index = j }) bits))
    from w = (
      w.out,
      w.returns,
      read_lem (record { m_bits = p; m_index = j }) w.out w.are_bytes (rw w.same_length hj)
          ∙ ap (λ n. some (digit n j == 1)) w.stored
          ∙ ap (λ d. some (d == 1))
              (digit-replaced (number bits) i (bit_of value) j (bit_of-lt value))
          ∙ chosen (i == j)
          ∙ ap (λ o. if i == j then some value else o)
              (sym (read_lem (record { m_bits = p; m_index = j }) bits h hj)),
    )
      where
        chosen :
            (b : Bool)
            → some ((if b then bit_of value else digit (number bits) j) == 1)
              ≡ (if b then some value else some (digit (number bits) j == 1))
        chosen true = ap some (bit_of_test value)
        chosen false = refl
