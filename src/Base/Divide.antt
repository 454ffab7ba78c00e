-- ===== src/Base/Divide.antt =====
-- Quotients and remainders by a power of two, one byte at a time.
use Prim.Native.Nat.{ℕ, zero, suc, ◌+◌, ◌*◌, ◌/◌, ◌%◌, ◌^◌, ◌≤◌, ◌<◌}
use mathlib.Core.Path.{◌≡◌, sym, ap, ◌∙◌}
use native.Mathlib.Omega.{arith}
use native.Mathlib.Nat.{
  one-le-pow, pow-suc, div-div-eq-div-mul, div-add-mod, zero-add, suc-add, mul-add-div_right,
  mul-add-mod_self_right, div-eq_of_lt, mod-eq_of_lt,
}

pub two-pow_pos : (k : ℕ) → 1 ≤ 2 ^ k
two-pow_pos k = one-le-pow k 2 (omega arith)

pub two-pow-add : (j k : ℕ) → 2 ^ (j + k) ≡ 2 ^ j * 2 ^ k
two-pow-add zero k = ap (λ (t : ℕ). 2 ^ t) (zero-add k) ∙ omega arith
two-pow-add (suc j) k =
    ap (λ (t : ℕ). 2 ^ t) (suc-add j k)
    ∙ omega (arith, pow-suc 2 (j + k), ap (λ (t : ℕ). t * 2 ^ k) (pow-suc 2 j), two-pow-add j k)

-- The low digit and the rest of a number below a larger modulus.
pub mod-mul : (v c p : ℕ) → 0 < c → 0 < p → v % (c * p) ≡ v % c + c * (v / c % p)
mod-mul v c p hc hp = omega (
  arith,
  div-add-mod v (c * p),
  ap (λ (t : ℕ). c * p * t) (sym (div-div-eq-div-mul v c p)),
  div-add-mod v c,
  ap (λ (t : ℕ). c * t) (div-add-mod (v / c) p),
)

pub div-mul : (v c p : ℕ) → v / (c * p) ≡ v / c / p
div-mul v c p = sym (div-div-eq-div-mul v c p)

-- A number with a high field `q` and a low field `r`.
pub div-fields : (q p : ℕ) {r : ℕ} → r < p → (q * p + r) / p ≡ q
div-fields q p {r} h =
    omega (arith, mul-add-div_right {m = p} (omega arith) q r, div-eq_of_lt {n = r} {m = p} h)

pub mod-fields : (q p : ℕ) {r : ℕ} → r < p → (q * p + r) % p ≡ r
mod-fields q p {r} h = mul-add-mod_self_right q p r ∙ mod-eq_of_lt h
