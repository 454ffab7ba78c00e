-- ===== src/Bits/Bitwise.antt =====
-- The binary digits of what the bit operations, the complement of a word and the shifts give.
use logic.Base.{
  ℕ, zero, suc, ◌+◌, ◌-◌, ◌*◌, ◌/◌, ◌%◌, ◌^◌, ◌<◌, ◌≤◌, ◌≡◌, sym, ap, ap₂, ◌∙◌, arith, min, max,
  bit_and, bit_or, ltb, if◌then◌else◌, div-mul, mod-mul, two-pow_pos, two-pow-add,
}
use native.Mathlib.Nat.{pow-suc}
use logic.Bits.Step.{or_lowest, and_lowest, zero-bit_and}
use logic.Bits.Digit.{digit, digit-suc}

pub digit-bit_and : (x y i : ℕ) → digit (bit_and x y) i ≡ min (digit x i) (digit y i)
digit-bit_and x y zero = omega (arith, and_lowest x y)
digit-bit_and x y (suc i) =
    digit-suc (bit_and x y) i
    ∙ ap (λ (t : ℕ). digit t i) (omega (arith, and_lowest x y))
    ∙ digit-bit_and (x / 2) (y / 2) i
    ∙ ap₂ min (sym (digit-suc x i)) (sym (digit-suc y i))

pub digit-bit_or : (x y i : ℕ) → digit (bit_or x y) i ≡ max (digit x i) (digit y i)
digit-bit_or x y zero = omega (arith, or_lowest x y)
digit-bit_or x y (suc i) =
    digit-suc (bit_or x y) i
    ∙ ap (λ (t : ℕ). digit t i) (omega (arith, or_lowest x y))
    ∙ digit-bit_or (x / 2) (y / 2) i
    ∙ ap₂ max (sym (digit-suc x i)) (sym (digit-suc y i))

-- The complement of a word of `w` bits.
abbrev pub not_word : ℕ → ℕ → ℕ
not_word w x = 2 ^ w - 1 - x

pub digit-not_word : (w x i : ℕ) → x < 2 ^ w → i < w → digit (not_word w x) i ≡ 1 - digit x i
digit-not_word zero x i h k = absurd (omega arith)
digit-not_word (suc w) x zero h k = omega (arith, pow-suc 2 w)
digit-not_word (suc w) x (suc i) h k =
    digit-suc (not_word (suc w) x) i
    ∙ ap (λ (t : ℕ). digit t i) (omega (arith, pow-suc 2 w))
    ∙ digit-not_word w (x / 2) i (omega (arith, pow-suc 2 w)) (omega arith)
    ∙ ap (λ (t : ℕ). 1 - t) (sym (digit-suc x i))

double : (v o : ℕ) → v * 2 ^ suc o ≡ 2 * (v * 2 ^ o)
double v o = omega (arith, ap (λ (t : ℕ). v * t) (pow-suc 2 o))

pub digit-shift : (v o i : ℕ) → digit (v * 2 ^ o) i ≡ (if ltb i o then 0 else digit v (i - o))
digit-shift v zero i = ap (λ (t : ℕ). digit t i) (omega arith) ∙ sym (below v i)
  where
    below : (v i : ℕ) → (if ltb i 0 then 0 else digit v (i - 0)) ≡ digit v i
    below v i = ground arith
digit-shift v (suc o) zero =
    ap (λ (t : ℕ). digit t 0) (double v o) ∙ even (v * 2 ^ o) ∙ sym (low v o)
  where
    even : (t : ℕ) → digit (2 * t) 0 ≡ 0
    even t = omega arith

    low : (v o : ℕ) → (if ltb 0 (suc o) then 0 else digit v (0 - suc o)) ≡ 0
    low v o = ground arith
digit-shift v (suc o) (suc i) =
    digit-suc (v * 2 ^ suc o) i
    ∙ ap (λ (t : ℕ). digit t i) (omega (arith, double v o))
    ∙ digit-shift v o i
    ∙ further v o i
  where
    further :
        (v o i : ℕ)
        → (if ltb i o then 0 else digit v (i - o))
          ≡ (if ltb (suc i) (suc o) then 0 else digit v (suc i - suc o))
    further v o i = ground arith

pub digit-div : (x o i : ℕ) → digit (x / 2 ^ o) i ≡ digit x (o + i)
digit-div x o i =
    ap (λ (t : ℕ). t % 2) (sym (div-mul x (2 ^ o) (2 ^ i)))
    ∙ ap (λ (t : ℕ). x / t % 2) (sym (two-pow-add o i))

pub digit-mod : (k x i : ℕ) → i < k → digit (x % 2 ^ k) i ≡ digit x i
digit-mod zero x i h = absurd (omega arith)
digit-mod (suc k) x zero h =
    omega (arith, ap (λ (t : ℕ). x % t) (pow-suc 2 k), split x (2 ^ k) (two-pow_pos k))
  where
    split : (x p : ℕ) → 1 ≤ p → x % (2 * p) ≡ x % 2 + 2 * (x / 2 % p)
    split x p h = mod-mul x 2 p (omega arith) h
digit-mod (suc k) x (suc i) h =
    digit-suc (x % 2 ^ suc k) i
    ∙ ap (λ (t : ℕ). digit t i) (half x (2 ^ k) (two-pow_pos k) (pow-suc 2 k))
    ∙ digit-mod k (x / 2) i (omega arith)
    ∙ sym (digit-suc x i)
  where
    swap : (p : ℕ) → p * 2 ≡ 2 * p
    swap p = omega arith

    half : (x p : ℕ) {q : ℕ} → 1 ≤ p → q ≡ p * 2 → x % q / 2 ≡ x / 2 % p
    half x p h e = omega (
      arith,
      ap (λ (t : ℕ). x % t) e,
      ap (λ (t : ℕ). x % t) (swap p),
      mod-mul x 2 p (omega arith) h,
    )

-- A number has no digits above its width.
pub digit-high : (k x i : ℕ) → x < 2 ^ k → k ≤ i → digit x i ≡ 0
digit-high zero x i h k = ap (λ (t : ℕ). digit t i) (omega arith) ∙ none_of i
  where
    none_of : (i : ℕ) → digit 0 i ≡ 0
    none_of zero = omega arith
    none_of (suc i) = digit-suc 0 i ∙ none_of i
digit-high (suc n) x zero h k = absurd (omega arith)
digit-high (suc n) x (suc i) h k =
    digit-suc x i ∙ digit-high n (x / 2) i (omega (arith, pow-suc 2 n)) (omega arith)

bit_and-zero : (n y : ℕ) → y ≤ n → bit_and y 0 ≡ 0
bit_and-zero zero y h = ap (λ (t : ℕ). bit_and t 0) {y = 0} (omega arith) ∙ zero-bit_and 0
bit_and-zero (suc n) y h = omega (arith, and_lowest y 0, bit_and-zero n (y / 2) (omega arith))

-- A single digit, by `&`.
pub bit_and-pow : (x o : ℕ) → bit_and x (2 ^ o) ≡ digit x o * 2 ^ o
bit_and-pow x zero = omega (arith, and_lowest x 1, bit_and-zero (x / 2) (x / 2) (omega arith))
bit_and-pow x (suc o) =
    ap (bit_and x) {y = 2 * 2 ^ o} (omega (arith, pow-suc 2 o))
    ∙ omega (
      arith,
      and_lowest x (2 * 2 ^ o),
      ap (λ (t : ℕ). bit_and (x / 2) t) (half (2 ^ o)),
      bit_and-pow (x / 2) o,
      ap (λ (d : ℕ). d * 2 ^ suc o) (digit-suc x o),
      double (digit (x / 2) o) o,
    )
  where
    half : (p : ℕ) → 2 * p / 2 ≡ p
    half p = omega arith
