-- ===== src/Bitstream/Raw.antt =====
-- `assign(src, bits)` and `copy(dst, bits)` between a stream and raw memory.
use logic.Base.{
  ℕ, zero, suc, ◌+◌, ◌*◌, ◌/◌, ◌%◌, ◌^◌, ◌≤◌, ◌<◌, ◌≡◌, refl, sym, ap, ◌∙◌, Option, some, List, [],
  ◌∷◌, ◌++◌, arith, length, take, drop, if◌then◌else◌, ltb, length-take, All-take, All-append,
  All-drop, length-drop, length-append, ◌>>=◌,
}
use native.Mathlib.Nat.{div-add-mod'}
use logic.Storage.{copy_n, modify}
use logic.Storage.Blocks.{copy_n_lem}
use logic.Storage.Masks.{spliced, spliced-IsByte, merge_lem}
use logic.Storage.Splice.{spliced-byte}
use logic.Storage.Number.{IsByte, AreBytes, number, number-append, number-take, number-drop}
use logic.Bitstream.Defs.{Bitstream, tail_bits, transfer, assign_from, copy_to, clamp}
use logic.Bitstream.Valid.{IsValid, clamp-le}
use logic.Bitstream.Words.{Stored}

-- How many of `n` bits arrive: all of fewer than eight, else only those of the whole bytes.
abbrev pub arriving : ℕ → ℕ
arriving n = if ltb n 8 then n else 8 * (n / 8)

module _ (src dst : List ℕ) (q : ℕ) (h : AreBytes src) (k : AreBytes dst) (p : q ≤ length src)
    (r : q ≤ length dst) where
  abbrev whole : List ℕ
  whole = take q src ++ drop q dst

  whole_lem : number whole ≡ spliced (8 * q) (number dst) (number src)
  whole_lem =
      number-append (take q src) (drop q dst)
      ∙ rw (number-take q src h, number-drop q dst k)
          (omega (arith, ap (λ (t : ℕ). 2 ^ (8 * t) * (number dst / 2 ^ (8 * q))) count))
    where
      count : length (take q src) ≡ q
      count = omega (arith, length-take {0} q src)

  same_length : length whole ≡ length dst
  same_length =
      omega (
        arith,
        length-append (take q src) (drop q dst),
        length-take {0} q src,
        length-drop {0} q dst,
      )

  whole-AreBytes : AreBytes whole
  whole-AreBytes =
      All-append IsByte (take q src) (drop q dst) (All-take IsByte q src h)
        (All-drop IsByte q dst k)

first_byte : (first : ℕ) (src : List ℕ) → IsByte first → (first + 256 * number src) % 256 ≡ first
first_byte first src b = omega arith

-- The bits left over, when no whole byte was copied.
tail_first :
    (src dst : List ℕ) (rest : ℕ)
    → rest < 8
    → AreBytes src
    → AreBytes dst
    → rest ≤ 8 * length src
    → rest ≤ 8 * length dst
    → Stored dst (number src) rest (tail_bits src rest dst)
tail_first src dst zero lt h k p r =
    unfold tail_bits in
    record { out = dst; returns = refl; same_length = refl; are_bytes = k; stored = omega arith }
tail_first [] dst (suc rest) lt h k p r = absurd (omega arith)
tail_first (first ∷ src) [] (suc rest) lt h k p r = absurd (omega arith)
tail_first (first ∷ src) (d ∷ dst) (suc rest) lt h k p r =
    unfold tail_bits modify number in
    record {
      out = spliced (suc rest) d first ∷ dst;
      returns = ap (λ t. some (t ∷ dst)) (merge_lem (suc rest) d first lt k.0);
      same_length = refl;
      are_bytes = (spliced-IsByte d first (suc rest) lt k.0, k.1);
      stored = sym (
          spliced-byte d (number dst) (first + 256 * number src) (suc rest) lt k.0
          ∙ ap (λ (t : ℕ). spliced (suc rest) d t + 256 * number dst) (first_byte first src h.0));
    }

-- The bits left over change nothing once the first byte is a copy of the source's.
tail_after :
    (first rest : ℕ) (src stored : List ℕ)
    → rest < 8
    → IsByte first
    → tail_bits (first ∷ src) rest (first ∷ stored) ≡ some (first ∷ stored)
unfolding tail_bits modify
tail_after first zero src stored lt b = refl
tail_after first (suc rest) src stored lt b =
    ap (λ t. some (t ∷ stored))
      (merge_lem (suc rest) first first lt b ∙ div-add-mod' first (2 ^ suc rest))

-- At least one whole byte: the copy, and a last step that changes nothing.
some_whole :
    (q rest : ℕ) (src dst : List ℕ)
    → rest < 8
    → AreBytes src
    → AreBytes dst
    → suc q ≤ length src
    → suc q ≤ length dst
    → Stored dst (number src) (8 * suc q) (copy_n src (suc q) dst >>= tail_bits src rest)
some_whole q rest [] dst lt h k p r = absurd (omega arith)
some_whole q rest (first ∷ src) dst lt h k p r = record {
  out = whole (first ∷ src) dst (suc q) h k p r;
  returns =
      rw (copy_n_lem (first ∷ src) (suc q) dst p r)
        (tail_after first rest src (take q src ++ drop (suc q) dst) lt h.0);
  same_length = same_length (first ∷ src) dst (suc q) h k p r;
  are_bytes = whole-AreBytes (first ∷ src) dst (suc q) h k p r;
  stored = whole_lem (first ∷ src) dst (suc q) h k p r;
}

module _ (n : ℕ) (src dst : List ℕ) (h : AreBytes src) (k : AreBytes dst) (p : n ≤ 8 * length src)
    (r : n ≤ 8 * length dst) where
  part :
      (q rest : ℕ)
      → n ≡ rest + 8 * q
      → rest < 8
      → Stored dst (number src) (arriving n) (copy_n src q dst >>= tail_bits src rest)
  unfolding copy_n
  part zero rest e lt =
      let small : arriving n ≡ rest = ground arith in
      rw small (tail_first src dst rest lt h k (omega arith) (omega arith))
  part (suc q) rest e lt =
      let large : arriving n ≡ 8 * suc q = ground arith in
      rw large (some_whole q rest src dst lt h k (omega arith) (omega arith))

-- Whole bytes are copied, and then the bits left over only where there was no whole byte.
pub transfer-Stored :
    (n : ℕ) (src dst : List ℕ)
    → AreBytes src
    → AreBytes dst
    → n ≤ 8 * length src
    → n ≤ 8 * length dst
    → Stored dst (number src) (arriving n) (transfer src dst n)
unfolding transfer
transfer-Stored n src dst h k p r =
    part n src dst h k p r (n / 8) (n % 8) (omega arith) (omega arith)

-- `assign(src, bits)` stays inside both buffers and returns; its `n` bits arrive as above.
pub record Loaded (src : List ℕ) (n : ℕ) (s : Bitstream) (result : Option Bitstream) : Type 0 where
  pub out : Bitstream
  pub returns : result ≡ some out
  pub valid : IsValid out
  pub same_size : out.m_size ≡ s.m_size
  pub stored : number out.m_bits ≡ spliced (arriving n) (number s.m_bits) (number src)

-- When the source has as many bits as are asked for, after the cut to the width of a valid stream,
-- `assign(src, bits)` stays inside both buffers and returns a valid stream of the same width. Of
-- the bits asked for, only those in whole bytes arrive, unless they are fewer than eight; all
-- others keep their values.
pub assign_from-Loaded :
    (src : List ℕ) (bits : ℕ) (s : Bitstream)
    → IsValid s
    → AreBytes src
    → clamp s.m_size bits ≤ 8 * length src
    → Loaded src (clamp s.m_size bits) s (assign_from src bits s)
unfolding assign_from
assign_from-Loaded src bits s v h room =
    from (transfer-Stored (clamp s.m_size bits) src s.m_bits h v.are_bytes room (clamp-le bits v))
  where
    n : ℕ
    n = clamp s.m_size bits

    from :
        Stored s.m_bits (number src) (arriving n) (transfer src s.m_bits n)
        → Loaded src (clamp s.m_size bits) s (assign_from src bits s)
    from moved = record {
      out = record s { m_bits = moved.out };
      returns = rw moved.returns;
      valid = record {
        fits = v.fits;
        allocated = moved.same_length ∙ v.allocated;
        are_bytes = moved.are_bytes;
      };
      same_size = refl;
      stored = moved.stored;
    }

-- When the destination has room for the bits that are asked for, after the cut to the width of a
-- valid stream, `copy(dst, bits)` stays inside both buffers and returns. Of the bits asked for,
-- only those in whole bytes arrive, unless they are fewer than eight; all other bits of the
-- destination keep their values.
pub copy_to-Stored :
    (dst : List ℕ) (bits : ℕ) (s : Bitstream)
    → IsValid s
    → AreBytes dst
    → clamp s.m_size bits ≤ 8 * length dst
    → Stored dst (number s.m_bits) (arriving (clamp s.m_size bits)) (copy_to dst bits s)
unfolding copy_to
copy_to-Stored dst bits s v k room =
    transfer-Stored (clamp s.m_size bits) s.m_bits dst v.are_bytes k (clamp-le bits v) room
