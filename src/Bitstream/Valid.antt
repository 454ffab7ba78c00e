-- ===== src/Bitstream/Valid.antt =====
-- What holds of a bit stream between two operations.
use logic.Base.{ℕ, ◌+◌, ◌*◌, ◌/◌, ◌^◌, ◌<◌, ◌≡◌, length, arith, min, ◌≤◌}
use logic.Storage.{size}
use logic.Storage.Number.{AreBytes}
use logic.Bitstream.Defs.{Bitstream, clamp}

-- The buffer has as many bytes as the width needs, and the width is one that `::size` can round up.
pub record IsValid (s : Bitstream) : Type 0 where
  pub fits : s.m_size + 7 < 2 ^ 64
  pub allocated : length s.m_bits ≡ (s.m_size + 7) / 8
  pub are_bytes : AreBytes s.m_bits

pub size_lem : (n : ℕ) → n + 7 < 2 ^ 64 → size n ≡ (n + 7) / 8
unfolding size
size_lem n h = omega arith

pub clamp-eq-min : (m bits : ℕ) → clamp m bits ≡ min m bits
unfolding clamp
clamp-eq-min m bits = ground arith

-- A width never passes the bits of its buffer.
pub clamp-le : {s : Bitstream} (bits : ℕ) → IsValid s → clamp s.m_size bits ≤ 8 * length s.m_bits
unfolding clamp
clamp-le bits v = ground arith
