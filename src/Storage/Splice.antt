-- ===== src/Storage/Splice.antt =====
-- Replacing the low bits of a number by those of another, across whole bytes and inside one.
use logic.Base.{ℕ, ◌+◌, ◌*◌, ◌/◌, ◌%◌, ◌^◌, ◌<◌, ◌≡◌, ap, arith, two-pow_pos, two-pow-add, mod-mul}
use logic.Storage.Number.{IsByte, div-byte}
use logic.Storage.Masks.{spliced, below_eight}

-- With eight more bits the lowest byte is the value's, and the rest is spliced.
pub spliced-eight :
    (k b rest val : ℕ)
    → IsByte b
    → spliced (8 + k) (b + 256 * rest) val ≡ val % 256 + 256 * spliced k rest (val / 256)
spliced-eight k b rest val h = omega (
  arith,
  div-byte b rest k h,
  two-pow-add 8 k,
  ap (λ (t : ℕ). t * 2 ^ (8 + k)) (div-byte b rest k h),
  ap (λ (t : ℕ). rest / 2 ^ k * t) (two-pow-add 8 k),
  ap (λ (t : ℕ). val % t) (two-pow-add 8 k),
  mod-mul val 256 (2 ^ k) (omega arith) (two-pow_pos k),
)

-- Fewer than eight bits only touch the lowest byte.
pub spliced-byte :
    (b rest val k : ℕ)
    → k < 8
    → IsByte b
    → spliced k (b + 256 * rest) val ≡ spliced k b (val % 256) + 256 * rest
spliced-byte b rest val =
    below_eight
      (λ k. IsByte b → spliced k (b + 256 * rest) val ≡ spliced k b (val % 256) + 256 * rest)
      (λ h. omega arith) (λ h. omega arith) (λ h. omega arith) (λ h. omega arith) (λ h. omega arith)
      (λ h. omega arith) (λ h. omega arith) (λ h. omega arith)
