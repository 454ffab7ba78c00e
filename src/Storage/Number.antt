-- ===== src/Storage/Number.antt =====
-- A buffer read as one number, its first byte the lowest.
use logic.Base.{
  ℕ, zero, suc, ◌+◌, ◌*◌, ◌/◌, ◌%◌, ◌^◌, ◌<◌, ◌≡◌, refl, sym, ap, ap₂, ◌∙◌, List, [], ◌∷◌, ◌++◌,
  arith, length, take, drop, replicate, All, two-pow_pos, two-pow-add, mod-mul, div-mul,
}
use native.Mathlib.Nat.{zero-mod, zero-div}

abbrev pub IsByte : ℕ → Type 0
IsByte x = x < 256

abbrev pub AreBytes : List ℕ → Type 0
AreBytes bits = All IsByte bits

unfoldable pub number : List ℕ → ℕ
number [] = 0
number (b ∷ bits) = b + 256 * number bits

eight-suc : (n : ℕ) → 8 + 8 * n ≡ 8 * suc n
eight-suc n = omega arith

pub byte-pow : (n : ℕ) → 2 ^ (8 * suc n) ≡ 256 * 2 ^ (8 * n)
byte-pow n = ap (λ (t : ℕ). 2 ^ t) (sym (eight-suc n)) ∙ two-pow-add 8 (8 * n)

-- The number of a buffer fits in its bits.
pub number-lt : (bits : List ℕ) → AreBytes bits → number bits < 2 ^ (8 * length bits)
unfolding number
number-lt [] h = omega arith
number-lt (b ∷ bits) h = omega (arith, byte-pow (length bits), number-lt bits h.1)

pub number-append :
    (xs ys : List ℕ) → number (xs ++ ys) ≡ number xs + 2 ^ (8 * length xs) * number ys
unfolding number
number-append [] ys = omega arith
number-append (x ∷ xs) ys =
    omega (arith, number-append xs ys, ap (λ (t : ℕ). t * number ys) (byte-pow (length xs)))

-- Eight more bits: what the lowest byte and the others give.
pub mod-byte : (b rest k : ℕ) → b < 256 → (b + 256 * rest) % 2 ^ (8 + k) ≡ b + 256 * (rest % 2 ^ k)
mod-byte b rest k h =
    ap (λ (t : ℕ). (b + 256 * rest) % t) (two-pow-add 8 k)
    ∙ mod-mul (b + 256 * rest) 256 (2 ^ k) (omega arith) (two-pow_pos k)
    ∙ ap₂ (λ (low high : ℕ). low + 256 * (high % 2 ^ k)) low high
  where
    low : (b + 256 * rest) % 256 ≡ b
    low = omega arith

    high : (b + 256 * rest) / 256 ≡ rest
    high = omega arith

pub div-byte : (b rest k : ℕ) → b < 256 → (b + 256 * rest) / 2 ^ (8 + k) ≡ rest / 2 ^ k
div-byte b rest k h =
    ap (λ (t : ℕ). (b + 256 * rest) / t) (two-pow-add 8 k)
    ∙ div-mul (b + 256 * rest) 256 (2 ^ k)
    ∙ ap (λ (high : ℕ). high / 2 ^ k) high
  where
    high : (b + 256 * rest) / 256 ≡ rest
    high = omega arith

pub number-take :
    (n : ℕ) (bits : List ℕ) → AreBytes bits → number (take n bits) ≡ number bits % 2 ^ (8 * n)
unfolding number
number-take zero bits h = omega arith
number-take (suc n) [] h = sym (zero-mod (2 ^ (8 * suc n)))
number-take (suc n) (b ∷ bits) h =
    ap (λ (t : ℕ). b + 256 * t) (number-take n bits h.1)
    ∙ sym (mod-byte b (number bits) (8 * n) h.0)
    ∙ ap (λ (t : ℕ). (b + 256 * number bits) % 2 ^ t) (eight-suc n)

pub number-drop :
    (n : ℕ) (bits : List ℕ) → AreBytes bits → number (drop n bits) ≡ number bits / 2 ^ (8 * n)
unfolding number
number-drop zero bits h = omega arith
number-drop (suc n) [] h = sym (zero-div (2 ^ (8 * suc n)))
number-drop (suc n) (b ∷ bits) h =
    number-drop n bits h.1
    ∙ sym (div-byte b (number bits) (8 * n) h.0)
    ∙ ap (λ (t : ℕ). (b + 256 * number bits) / 2 ^ t) (eight-suc n)

pub number-replicate-zero : (n : ℕ) → number (replicate n 0) ≡ 0
unfolding number
number-replicate-zero zero = refl
number-replicate-zero (suc n) = omega (arith, number-replicate-zero n)
