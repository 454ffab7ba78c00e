-- ===== src/Bitstream/Values.antt =====
-- `value(bits)` reads back the lowest bits of the buffer, and inverts `assign(val, bits)`.
use logic.Base.{
  ℕ, zero, suc, ◌+◌, ◌-◌, ◌*◌, ◌/◌, ◌%◌, ◌^◌, ◌≤◌, ◌<◌, ◌≡◌, refl, sym, ap, ◌∙◌, false, some, List,
  [], ◌∷◌, arith, length, leb, ◌==◌, Bool-cases, inl, inr, leb→le, le→leb, leb-false, lt→leb-false,
  two-pow_pos, two-pow-add, mod-fields, bit_or,
}
use native.Mathlib.Nat.{
  pow-le-pow_right, mod-eq_of_lt, mod-lt, mod-one, lt_of_lt_of_le, mul-lt-mul_of_pos_right,
  mul-le-mul_right,
}
use logic.Bits.{bit_or-fields, bit_and-mask}
use logic.Storage.{word_mod}
use logic.Storage.Number.{AreBytes, number, mod-byte}
use logic.Storage.Masks.{low_mask_lem, below_eight}
use logic.Bitstream.Defs.{Bitstream, assign, value_loop, value, clamp}
use logic.Bitstream.Valid.{IsValid, clamp-le}
use logic.Bitstream.Words.{Assigned, assign-Assigned}

-- A value of `j` bits that is moved up inside a 64-bit word loses nothing.
shifted-lt : (j shift x : ℕ) → x < 2 ^ j → x * 2 ^ shift < 2 ^ (j + shift)
shifted-lt j shift x h = rw two-pow-add (mul-lt-mul_of_pos_right h (two-pow_pos shift))

moved : (j shift x : ℕ) → x < 2 ^ j → j + shift ≤ 64 → x * 2 ^ shift % word_mod ≡ x * 2 ^ shift
moved j shift x h word =
    mod-eq_of_lt
      (lt_of_lt_of_le (shifted-lt j shift x h) (pow-le-pow_right {n = 2} (omega arith) word))

-- The accumulator takes one more field of `j` bits.
joined :
    (j shift val x : ℕ)
    → x < 2 ^ j
    → j + shift ≤ 64
    → val < 2 ^ shift
    → bit_or val (x * 2 ^ shift % word_mod) ≡ val + x * 2 ^ shift
joined j shift val x h word low =
    ap (bit_or val) (moved j shift x h word) ∙ bit_or-fields shift x val low

low_bits-byte : (b rest k : ℕ) → k < 8 → (b + 256 * rest) % 2 ^ k ≡ b % 2 ^ k
low_bits-byte b rest =
    below_eight (λ k. (b + 256 * rest) % 2 ^ k ≡ b % 2 ^ k) (omega arith) (omega arith)
      (omega arith) (omega arith) (omega arith) (omega arith) (omega arith) (omega arith)

-- No more bits to read.
nothing_left : (val n p : ℕ) → val ≡ val + n % 2 ^ 0 * p
nothing_left val n p = omega (arith, ap (λ (t : ℕ). t * p) (mod-one n))

module _ (b : ℕ) (byte : List ℕ) (shift val bits : ℕ) (h : AreBytes (b ∷ byte))
    (low : val < 2 ^ shift) (some_left : 0 < bits) (word : shift + bits ≤ 64) where
  started : (bits == 0) ≡ false
  started = ground arith

  -- One turn of `while (bits >= 8)`.
  whole_byte :
      8 ≤ bits
      → value_loop (b ∷ byte) shift val bits
        ≡ value_loop byte (shift + 8) (val + b * 2 ^ shift) (bits - 8)
  unfolding value_loop
  whole_byte more =
      rw (started, lt→leb-false 64 shift (omega arith), le→leb 8 bits more)
        (rw (joined 8 shift val b h.0 (omega arith) low) refl)

  -- What the bits above the first byte add.
  whole_sum :
      8 ≤ bits
      → val + b * 2 ^ shift + number byte % 2 ^ (bits - 8) * 2 ^ (shift + 8)
        ≡ val + number (b ∷ byte) % 2 ^ bits * 2 ^ shift
  unfolding number
  whole_sum more = omega (
    arith,
    ap (λ (t : ℕ). number byte % 2 ^ (bits - 8) * t) (two-pow-add shift 8),
    ap (λ (t : ℕ). t * 2 ^ shift)
        (ap (λ (t : ℕ). (b + 256 * number byte) % 2 ^ t) count
          ∙ mod-byte b (number byte) (bits - 8) h.0),
  )
    where
      count : bits ≡ 8 + (bits - 8)
      count = omega arith

  -- `if (bits > 0)`
  part_byte :
      bits < 8
      → value_loop (b ∷ byte) shift val bits ≡ some (val + number (b ∷ byte) % 2 ^ bits * 2 ^ shift)
  unfolding value_loop number
  part_byte less =
      rw (started, lt→leb-false 64 shift (omega arith), lt→leb-false 8 bits less)
        (ap some (
          rw (low_mask_lem bits less, bit_and-mask bits b)
            (joined bits shift val (b % 2 ^ bits) (mod-lt b (two-pow_pos bits)) (omega arith) low
              ∙ ap (λ (t : ℕ). val + t * 2 ^ shift)
                  (sym (low_bits-byte b (number byte) bits less)))))

  grown : 8 ≤ bits → val + b * 2 ^ shift < 2 ^ (shift + 8)
  grown more = omega (
    arith,
    two-pow-add shift 8,
    mul-le-mul_right {m = b} {n = 255} (2 ^ shift) (omega (arith, h.0)),
  )

-- The accumulator of `value` and the bits that are still to come.
value_loop_lem :
    (byte : List ℕ) (shift val bits : ℕ)
    → AreBytes byte
    → bits ≤ 8 * length byte
    → shift + bits ≤ 64
    → val < 2 ^ shift
    → value_loop byte shift val bits ≡ some (val + number byte % 2 ^ bits * 2 ^ shift)
value_loop_lem [] shift val zero h fits word low =
    unfold value_loop number in ap some (nothing_left val 0 (2 ^ shift))
value_loop_lem [] shift val (suc bits) h fits word low = absurd (omega arith)
value_loop_lem (b ∷ byte) shift val zero h fits word low =
    unfold value_loop in ap some (nothing_left val (number (b ∷ byte)) (2 ^ shift))
value_loop_lem (b ∷ byte) shift val (suc k) h fits word low = elim (Bool-cases (leb 8 (suc k))) [
  | inl more ↦
      let le : 8 ≤ suc k = leb→le 8 (suc k) more in
      whole_byte b byte shift val (suc k) h low (omega arith) word le
      ∙ value_loop_lem byte (shift + 8) (val + b * 2 ^ shift) (suc k - 8) h.1 (omega arith)
          (omega arith) (grown b byte shift val (suc k) h low (omega arith) word le)
      ∙ ap some (whole_sum b byte shift val (suc k) h low (omega arith) word le)
  | inr less ↦
      part_byte b byte shift val (suc k) h low (omega arith) word (leb-false 8 (suc k) less)
]

-- On a valid stream and for at most 64 bits after the cut to the stream's width, `value(bits)`
-- stays inside the buffer and returns the number that the buffer holds, modulo 2 to the number of
-- bits.
pub value_lem :
    (bits : ℕ) (s : Bitstream)
    → IsValid s
    → clamp s.m_size bits ≤ 64
    → value bits s ≡ some (number s.m_bits % 2 ^ clamp s.m_size bits)
unfolding value
value_lem bits s v word =
    value_loop_lem s.m_bits 0 0 (clamp s.m_size bits) v.are_bytes (clamp-le bits v) (omega arith)
      (omega arith)
    ∙ ap some (omega arith)

-- On a valid stream and for at most 64 bits after the cut to the stream's width, `assign` returns,
-- and reading the same number of bits back gives the value, cut to the bits that fit.
pub value-assign :
    (val bits : ℕ) (s : Bitstream)
    → IsValid s
    → clamp s.m_size bits ≤ 64
    → (t : Bitstream) × (assign val bits s ≡ some t)
      × (value bits t ≡ some (val % 2 ^ clamp s.m_size bits))
value-assign val bits s v word = from (assign-Assigned val bits s v)
  where
    n : ℕ
    n = clamp s.m_size bits

    from :
        Assigned val n s (assign val bits s)
        → (t : Bitstream) × (assign val bits s ≡ some t)
          × (value bits t ≡ some (val % 2 ^ clamp s.m_size bits))
    from a = (
      a.out,
      a.returns,
      value_lem bits a.out a.valid (rw a.same_size word)
          ∙ ap some (
              rw a.same_size (
                ap (λ (t : ℕ). t % 2 ^ n) a.stored
                ∙ mod-fields (number s.m_bits / 2 ^ n) (2 ^ n) (mod-lt val (two-pow_pos n)))),
    )
