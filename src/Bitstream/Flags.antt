-- ===== src/Bitstream/Flags.antt =====
-- `operator=(bool)` writes the lowest bit and `operator bool` reads it.
use logic.Base.{
  ℕ, zero, suc, ◌+◌, ◌-◌, ◌*◌, ◌/◌, ◌%◌, ◌^◌, ◌≡◌, refl, ap, ◌∙◌, Bool, false, true, some, List, [],
  ◌∷◌, arith, ◌==◌, if◌then◌else◌, ltb, bit_or, bit_and, lt→ltb, ==_iff,
}
use logic.Bits.{bit_and-shifted, bit_or-shifted, bit_and-cleared}
use logic.Bits.Digit.{bit_of}
use logic.Storage.{modify}
use logic.Storage.Number.{IsByte, number}
use logic.Bitstream.Defs.{Bitstream, set_bool, to_bool, first_bit}
use logic.Bitstream.Valid.{IsValid}

with_low_bit : Bool → ℕ → ℕ
with_low_bit val byte = if val then bit_or byte 0x01 else bit_and byte 0xFE

with_low_bit_lem :
    (val : Bool) (byte : ℕ) → IsByte byte → with_low_bit val byte ≡ byte - byte % 2 + bit_of val
unfolding with_low_bit
with_low_bit_lem true byte h = bit_or-shifted 0 byte (omega arith) h ∙ omega arith
with_low_bit_lem false byte h = bit_and-cleared 0 byte (omega arith) h ∙ omega arith

-- The stream after a Boolean was assigned: only its lowest bit is another, if it has one.
pub record Flagged (val : Bool) (s : Bitstream) : Type 0 where
  pub out : Bitstream
  pub returns : set_bool val s ≡ some out
  pub valid : IsValid out
  pub same_size : out.m_size ≡ s.m_size
  pub stored : number out.m_bits ≡ (
      if ltb 0 s.m_size
      then number s.m_bits - number s.m_bits % 2 + bit_of val
      else number s.m_bits)
  pub read_back : to_bool out ≡ some (if ltb 0 s.m_size then val else false)

flag_sum :
    (val : Bool) (b rest : ℕ)
    → b - b % 2 + bit_of val + 256 * rest ≡ b + 256 * rest - (b + 256 * rest) % 2 + bit_of val
flag_sum true b rest = omega arith
flag_sum false b rest = omega arith

flag_read : (val : Bool) (b : ℕ) → (1 == (b - b % 2 + bit_of val) / 2 ^ 0 % 2 * 2 ^ 0) ≡ val
flag_read true b = (==_iff 1 _).1 (omega arith)
flag_read false b = ground arith

flag-IsByte : (val : Bool) (b : ℕ) → IsByte b → IsByte (b - b % 2 + bit_of val)
flag-IsByte true b h = omega arith
flag-IsByte false b h = omega arith

flagged :
    (val : Bool) (bits : List ℕ) (n : ℕ)
    → IsValid (record { m_bits = bits; m_size = n })
    → Flagged val (record { m_bits = bits; m_size = n })
flagged val bits zero v =
    unfold set_bool to_bool in
    record {
      out = record { m_bits = bits; m_size = 0 };
      returns = refl;
      valid = v;
      same_size = refl;
      stored = refl;
      read_back = refl;
    }
flagged val [] (suc n) v = absurd (omega (arith, v.allocated))
flagged val (b ∷ bits) (suc n) v = record {
  out = record { m_bits = (b - b % 2 + bit_of val) ∷ bits; m_size = suc n };
  returns =
      unfold set_bool modify with_low_bit in
      rw (lt→ltb 0 (suc n) (omega arith)) (
        ap (λ t. some (record { m_bits = t ∷ bits; m_size = suc n }))
          (with_low_bit_lem val b v.are_bytes.0));
  valid = record {
    fits = v.fits;
    allocated = v.allocated;
    are_bytes = (flag-IsByte val b v.are_bytes.0, v.are_bytes.1);
  };
  same_size = refl;
  stored = unfold number in rw (lt→ltb 0 (suc n) (omega arith)) (flag_sum val b (number bits));
  read_back =
      unfold to_bool first_bit in
      rw (lt→ltb 0 (suc n) (omega arith)) (
        ap some (
          ap (λ t. 1 == t) (bit_and-shifted 0 _ (omega arith) (flag-IsByte val b v.are_bytes.0))
          ∙ flag_read val b));
}

-- Assigning a Boolean to a valid stream stays inside the buffer and returns a valid stream of the
-- same width, in which only the lowest bit is another, if the stream has one; the stream then reads
-- as that Boolean, and an empty one as false.
set_bool-Flagged : (val : Bool) (s : Bitstream) → IsValid s → Flagged val s
set_bool-Flagged val s v = flagged val s.m_bits s.m_size v
