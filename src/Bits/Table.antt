-- ===== src/Bits/Table.antt =====
-- Facts about one byte, checked by evaluation on every byte and every shift below 8.
use logic.Base.{
  ℕ, zero, suc, ◌+◌, ◌-◌, ◌*◌, ◌/◌, ◌%◌, ◌^◌, ◌<◌, bit_and, bit_or, ◌≡◌, refl, Bool, true, false,
  if◌then◌else◌, arith, ◌==◌, ==_iff,
}

-- Whether a test holds of every number below a bound.
holds : (ℕ → Bool) → ℕ → Bool
holds test zero = true
holds test (suc bound) = let lower = holds test bound in if test bound then lower else false

at_entry :
    (test : ℕ → Bool) (bound entry : ℕ)
    → entry < bound
    → holds test bound ≡ true
    → test entry ≡ true
unfolding holds
at_entry test zero entry below table = absurd (omega arith)
at_entry test (suc bound) entry below table = ground (arith, at_entry test bound entry)

-- An equation of two functions of a shift and a byte, from its table.
from_table :
    (f g : ℕ → ℕ → ℕ)
    → holds (λ k. holds (λ x. f k x == g k x) 256) 8 ≡ true
    → (k x : ℕ) → k < 8
    → x < 256
    → f k x ≡ g k x
from_table f g table k x hk hx =
    let row = at_entry (λ j. holds (λ y. f j y == g j y) 256) 8 k hk table in
    (==_iff (f k x) (g k x)).0 (at_entry (λ y. f k y == g k y) 256 x hx row)

pub bit_and-shifted : (k x : ℕ) → k < 8 → x < 256 → bit_and x (2 ^ k) ≡ x / 2 ^ k % 2 * 2 ^ k
unfolding holds
bit_and-shifted = from_table _ _ refl

pub bit_or-shifted :
    (k x : ℕ) → k < 8 → x < 256 → bit_or x (2 ^ k) ≡ x + 2 ^ k - x / 2 ^ k % 2 * 2 ^ k
unfolding holds
bit_or-shifted = from_table _ _ refl

pub bit_and-cleared :
    (k x : ℕ) → k < 8 → x < 256 → bit_and x (255 - 2 ^ k) ≡ x - x / 2 ^ k % 2 * 2 ^ k
unfolding holds
bit_and-cleared = from_table _ _ refl

pub bit_and-high : (k x : ℕ) → k < 8 → x < 256 → bit_and x (256 - 2 ^ k) ≡ x / 2 ^ k * 2 ^ k
unfolding holds
bit_and-high = from_table _ _ refl

pub bit_or-parts : (k x : ℕ) → k < 8 → x < 256 → bit_or (x / 2 ^ k * 2 ^ k) (x % 2 ^ k) ≡ x
unfolding holds
bit_or-parts = from_table (λ k x. bit_or (x / 2 ^ k * 2 ^ k) (x % 2 ^ k)) (λ k x. x) refl
