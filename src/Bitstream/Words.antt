-- ===== src/Bitstream/Words.antt =====
-- `assign(val, bits)`: what a number leaves in the buffer.
use logic.Base.{
  ℕ, zero, suc, ◌+◌, ◌-◌, ◌*◌, ◌/◌, ◌%◌, ◌≤◌, ◌<◌, ◌≡◌, refl, sym, ap, ◌∙◌, Option, some, List, [],
  ◌∷◌, arith, length, leb, ◌==◌, Bool-cases, inl, inr, leb→le, le→leb, leb-false, lt→leb-false,
  if◌then◌else◌, suc-==-zero,
}
use logic.Storage.{merge}
use logic.Storage.Number.{AreBytes, number}
use logic.Storage.Masks.{spliced, spliced-IsByte, merge_lem}
use logic.Storage.Splice.{spliced-eight, spliced-byte}
use logic.Bitstream.Defs.{Bitstream, assign_loop, assign, clamp}
use logic.Bitstream.Valid.{IsValid, clamp-le}

-- A buffer whose lowest `k` bits were replaced by those of `val`.
pub record Stored (before : List ℕ) (val k : ℕ) (result : Option (List ℕ)) : Type 0 where
  pub out : List ℕ
  pub returns : result ≡ some out
  pub same_length : length out ≡ length before
  pub are_bytes : AreBytes out
  pub stored : number out ≡ spliced k (number before) val

module _ (b : ℕ) (byte : List ℕ) (val bits : ℕ) (h : AreBytes (b ∷ byte)) where
  -- One turn of `while (bits >= 8)`.
  byte_step :
      8 ≤ bits
      → Stored byte (val / 256) (bits - 8) (assign_loop byte (val / 256) (bits - 8))
      → Stored (b ∷ byte) val bits (assign_loop (b ∷ byte) val bits)
  unfolding assign_loop
  byte_step more rest = record {
    out = (val % 256) ∷ rest.out;
    returns = rw (le→leb 8 bits more) (rw rest.returns);
    same_length = ap suc rest.same_length;
    are_bytes = (omega arith, rest.are_bytes);
    stored = total;
  }
    where
      count : 8 + (bits - 8) ≡ bits
      count = omega arith

      total : number ((val % 256) ∷ rest.out) ≡ spliced bits (number (b ∷ byte)) val
      total =
          unfold number in
          ap (λ (t : ℕ). val % 256 + 256 * t) rest.stored
          ∙ sym (spliced-eight (bits - 8) b (number byte) val h.0)
          ∙ ap (λ (t : ℕ). spliced t (b + 256 * number byte) val) count

  -- `if (bool(bits))`
  tail_step : bits < 8 → Stored (b ∷ byte) val bits (assign_loop (b ∷ byte) val bits)
  unfolding assign_loop
  tail_step small = record {
    out = spliced bits b (val % 256) ∷ byte;
    returns = rw (lt→leb-false 8 bits small) (tail_byte bits small);
    same_length = refl;
    are_bytes = (spliced-IsByte b (val % 256) bits small h.0, h.1);
    stored = unfold number in sym (spliced-byte b (number byte) val bits small h.0);
  }
    where
      tail_byte :
          (k : ℕ)
          → k < 8
          → (if k == 0 then some (b ∷ byte) else some (merge k b (val % 256) ∷ byte))
            ≡ some (spliced k b (val % 256) ∷ byte)
      tail_byte zero lt = ap (λ (t : ℕ). some (t ∷ byte)) (omega arith)
      tail_byte (suc k) lt =
          rw suc-==-zero (ap (λ (t : ℕ). some (t ∷ byte)) (merge_lem (suc k) b (val % 256) lt h.0))

pub assign_loop-Stored :
    (byte : List ℕ) (val bits : ℕ)
    → AreBytes byte
    → bits ≤ 8 * length byte
    → Stored byte val bits (assign_loop byte val bits)
assign_loop-Stored [] val zero h fits = record {
  out = [];
  returns = unfold assign_loop in refl;
  same_length = refl;
  are_bytes = tt;
  stored = unfold number in omega arith;
}
assign_loop-Stored [] val (suc bits) h fits = absurd (omega arith)
assign_loop-Stored (b ∷ byte) val bits h fits = elim (Bool-cases (leb 8 bits)) [
  | inl more ↦
      byte_step b byte val bits h (leb→le 8 bits more)
        (assign_loop-Stored byte (val / 256) (bits - 8) h.1 (omega (arith, leb→le 8 bits more)))
  | inr less ↦ tail_step b byte val bits h (leb-false 8 bits less)
]

-- `assign` stays inside the buffer and returns; of the `n` bits that fit it takes the value's, and
-- it keeps all others.
pub record Assigned (val n : ℕ) (s : Bitstream) (result : Option Bitstream) : Type 0 where
  pub out : Bitstream
  pub returns : result ≡ some out
  pub valid : IsValid out
  pub same_size : out.m_size ≡ s.m_size
  pub stored : number out.m_bits ≡ spliced n (number s.m_bits) val

-- On a valid stream `assign(val, bits)` stays inside the buffer, returns a valid stream of the same
-- width, replaces the lowest `bits` bits, or all if the stream has fewer, by those of the value,
-- and keeps all others.
pub assign-Assigned :
    (val bits : ℕ) (s : Bitstream)
    → IsValid s
    → Assigned val (clamp s.m_size bits) s (assign val bits s)
unfolding assign
assign-Assigned val bits s v =
    from (assign_loop-Stored s.m_bits val (clamp s.m_size bits) v.are_bytes (clamp-le bits v))
  where
    from :
        Stored s.m_bits val (clamp s.m_size bits) (assign_loop s.m_bits val (clamp s.m_size bits))
        → Assigned val (clamp s.m_size bits) s (assign val bits s)
    from loop = record {
      out = record s { m_bits = loop.out };
      returns = rw loop.returns;
      valid = record {
        fits = v.fits;
        allocated = loop.same_length ∙ v.allocated;
        are_bytes = loop.are_bytes;
      };
      same_size = refl;
      stored = loop.stored;
    }
