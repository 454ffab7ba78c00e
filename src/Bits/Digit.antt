-- ===== src/Bits/Digit.antt =====
-- One binary digit of a number, and the number with one digit replaced.
use logic.Base.{
  ℕ, zero, suc, ◌+◌, ◌-◌, ◌*◌, ◌/◌, ◌%◌, ◌^◌, ◌<◌, ◌≤◌, ◌≡◌, refl, Bool, sym, ap, ◌∙◌, arith, ◌==◌,
  if◌then◌else◌, div-mul, suc-==-zero, zero-==-suc, suc-==-suc, ap₂,
}
use native.Mathlib.Nat.{pow-suc, mul-le-mul_right, mod-le, div-mul-le_self, le_trans}

abbrev pub digit : ℕ → ℕ → ℕ
digit x i = x / 2 ^ i % 2

abbrev pub bit_of : Bool → ℕ
bit_of b = if b then 1 else 0

abbrev pub replaced : ℕ → ℕ → ℕ → ℕ
replaced x i v = x - digit x i * 2 ^ i + v * 2 ^ i

doubled : (i : ℕ) → 2 ^ suc i ≡ 2 * 2 ^ i
doubled i = omega (arith, pow-suc 2 i)

pub digit-suc : (x i : ℕ) → digit x (suc i) ≡ digit (x / 2) i
digit-suc x i = ap (λ (t : ℕ). x / t % 2) (doubled i) ∙ ap (λ (t : ℕ). t % 2) (div-mul x 2 (2 ^ i))

pub digit-le : (x i : ℕ) → digit x i * 2 ^ i ≤ x
digit-le x i =
    le_trans (mul-le-mul_right (2 ^ i) (mod-le (x / 2 ^ i) 2)) (div-mul-le_self x (2 ^ i))

pub replaced-suc : (x i v : ℕ) → replaced x (suc i) v ≡ x % 2 + 2 * replaced (x / 2) i v
replaced-suc x i v =
    ap (λ (d : ℕ). x - d * 2 ^ suc i + v * 2 ^ suc i) (digit-suc x i)
    ∙ ap (λ (p : ℕ). x - digit (x / 2) i * p + v * p) (doubled i)
    ∙ omega (arith, digit-le (x / 2) i)

pub digit-replaced :
    (x i v j : ℕ) → v < 2 → digit (replaced x i v) j ≡ (if i == j then v else digit x j)
digit-replaced x zero v zero h = omega arith
digit-replaced x zero v (suc j) h =
    digit-suc (replaced x 0 v) j
    ∙ ap (λ (t : ℕ). digit t j) half
    ∙ sym (digit-suc x j)
    ∙ sym (rw zero-==-suc refl)
  where
    half : replaced x 0 v / 2 ≡ x / 2
    half = omega arith
digit-replaced x (suc i) v zero h =
    ap (λ (t : ℕ). digit t 0) (replaced-suc x i v) ∙ low ∙ sym (rw suc-==-zero refl)
  where
    low : digit (x % 2 + 2 * replaced (x / 2) i v) 0 ≡ digit x 0
    low = omega arith
digit-replaced x (suc i) v (suc j) h =
    digit-suc (replaced x (suc i) v) j
    ∙ ap (λ (t : ℕ). digit (t / 2) j) (replaced-suc x i v)
    ∙ ap (λ (t : ℕ). digit t j) half
    ∙ digit-replaced (x / 2) i v j h
    ∙ ap₂ (λ b t. if b then v else t) (sym (suc-==-suc i j)) (sym (digit-suc x j))
  where
    half : (x % 2 + 2 * replaced (x / 2) i v) / 2 ≡ replaced (x / 2) i v
    half = omega arith

-- Numbers of `n` digits with the same digits are equal.
pub eq_of_digits :
    (n x y : ℕ) → x < 2 ^ n → y < 2 ^ n → ((i : ℕ) → i < n → digit x i ≡ digit y i) → x ≡ y
eq_of_digits zero x y h k same = omega arith
eq_of_digits (suc n) x y h k same = omega (
  arith,
  doubled n,
  same 0 (omega arith),
  eq_of_digits n (x / 2) (y / 2) (omega (arith, doubled n)) (omega (arith, doubled n))
      (λ i lt. sym (digit-suc x i) ∙ same (suc i) (omega arith) ∙ digit-suc y i),
)
