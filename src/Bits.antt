-- ===== src/Bits.antt =====
-- The bit operations of C++ on unsigned values, as arithmetic: `|` of disjoint fields, `&` with a
-- low mask, and the single-bit operations inside a byte.
mod Step
mod Table
pub mod Digit
pub mod Bitwise
use Step.{or_lowest, and_lowest, zero-bit_or, zero-bit_and}
pub use Table.*
use logic.Base.{
  ℕ, zero, suc, ◌+◌, ◌-◌, ◌*◌, ◌/◌, ◌%◌, ◌^◌, ◌<◌, bit_and, bit_or, ◌≡◌, refl, ap, arith,
  two-pow_pos, mod-mul,
}
use native.Mathlib.Nat.{pow-suc}

double : (q k : ℕ) → q * 2 ^ suc k ≡ 2 * (q * 2 ^ k)
double q k = omega (arith, ap (λ (t : ℕ). q * t) (pow-suc 2 k))

-- `r | (q << k)` is a sum when `r` fits in `k` bits.
pub bit_or-fields : (k q r : ℕ) → r < 2 ^ k → bit_or r (q * 2 ^ k) ≡ r + q * 2 ^ k
bit_or-fields zero q zero h = omega (arith, zero-bit_or (q * 2 ^ 0))
bit_or-fields zero q (suc r) h = absurd (omega arith)
bit_or-fields (suc k) q r h = omega (
  arith,
  pow-suc 2 k,
  double q k,
  or_lowest r (q * 2 ^ suc k),
  ap (λ (t : ℕ). bit_or (r / 2) t) (halved q k),
  bit_or-fields k q (r / 2) (omega (arith, pow-suc 2 k)),
)
  where
    halved : (q k : ℕ) → q * 2 ^ suc k / 2 ≡ q * 2 ^ k
    halved q k = omega (arith, double q k)

-- A mask of `k` low ones is the remainder by `2 ^ k`.
pub bit_and-mask : (k a : ℕ) → bit_and (2 ^ k - 1) a ≡ a % 2 ^ k
bit_and-mask zero a = omega (arith, zero-bit_and a)
bit_and-mask (suc k) a = omega (
  arith,
  pow-suc 2 k,
  two-pow_pos k,
  and_lowest (2 ^ suc k - 1) a,
  ap (λ (t : ℕ). bit_and t (a / 2)) (halved k),
  bit_and-mask k (a / 2),
  mod-mul a 2 (2 ^ k) (omega arith) (two-pow_pos k),
  ap (λ (t : ℕ). a % t) (doubled k),
)
  where
    halved : (k : ℕ) → (2 ^ suc k - 1) / 2 ≡ 2 ^ k - 1
    halved k = omega (arith, pow-suc 2 k, two-pow_pos k)

    doubled : (k : ℕ) → 2 ^ suc k ≡ 2 * 2 ^ k
    doubled k = omega (arith, pow-suc 2 k)
