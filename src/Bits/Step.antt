-- ===== src/Bits/Step.antt =====
-- `|` and `&` as a sum of their lowest binary digit and of twice the rest. The native operations are a
-- recursion on binary digits that takes the first operand as its fuel; less is enough.
use Prim.Native.Nat.{digits, bit_and-bitwise, bit_or-bitwise}
use logic.Base.{
  ℕ, zero, suc, ◌+◌, ◌-◌, ◌*◌, ◌/◌, ◌%◌, ◌≤◌, min, max, bit_and, bit_or, ◌≡◌, refl, ap, ◌∙◌, arith,
}

module _ (keep : ℕ → ℕ) (on : ℕ → ℕ → ℕ) where
  one_more : (fuel x y : ℕ) → x ≤ fuel → digits keep on (suc fuel) x y ≡ digits keep on fuel x y
  one_more zero zero y enough = refl
  one_more zero (suc x) y enough = absurd (omega arith)
  one_more (suc fuel) zero y enough = refl
  one_more (suc fuel) (suc x) y enough =
      omega (arith, one_more fuel (suc x / 2) (y / 2) (omega arith))

  many_more :
      (more fuel x y : ℕ) → x ≤ fuel → digits keep on (fuel + more) x y ≡ digits keep on fuel x y
  many_more zero fuel x y enough = ap (λ (t : ℕ). digits keep on t x y) (omega arith)
  many_more (suc more) fuel x y enough =
      ap (λ (t : ℕ). digits keep on t x y) (later fuel more)
      ∙ one_more (fuel + more) x y (omega arith)
      ∙ many_more more fuel x y enough
    where
      later : (fuel more : ℕ) → fuel + suc more ≡ suc (fuel + more)
      later fuel more = omega arith

  -- The fuel that is left after one digit, against the fuel that a call on the rest takes.
  halved_fuel :
      (x y : ℕ)
      → digits keep on x (suc x / 2) (y / 2) ≡ digits keep on (suc x / 2) (suc x / 2) (y / 2)
  halved_fuel x y =
      ap (λ (t : ℕ). digits keep on t (suc x / 2) (y / 2)) (split x)
      ∙ many_more (x - suc x / 2) (suc x / 2) (suc x / 2) (y / 2) (omega arith)
    where
      split : (x : ℕ) → x ≡ suc x / 2 + (x - suc x / 2)
      split x = omega arith

pub or_lowest : (x y : ℕ) → bit_or x y ≡ max (x % 2) (y % 2) + 2 * bit_or (x / 2) (y / 2)
or_lowest zero y = omega (arith, bit_or-bitwise 0 (y / 2), bit_or-bitwise 0 y)
or_lowest (suc x) y =
    let whole = bit_or-bitwise (suc x) y in
    let rest = bit_or-bitwise (suc x / 2) (y / 2) in
    let fuel = halved_fuel (λ t. t) max x y in omega (arith, whole, rest, fuel)

pub and_lowest : (x y : ℕ) → bit_and x y ≡ min (x % 2) (y % 2) + 2 * bit_and (x / 2) (y / 2)
and_lowest zero y = omega (arith, bit_and-bitwise 0 (y / 2), bit_and-bitwise 0 y)
and_lowest (suc x) y =
    let whole = bit_and-bitwise (suc x) y in
    let rest = bit_and-bitwise (suc x / 2) (y / 2) in
    let fuel = halved_fuel (λ t. 0) min x y in omega (arith, whole, rest, fuel)

pub zero-bit_or : (y : ℕ) → bit_or 0 y ≡ y
zero-bit_or = bit_or-bitwise 0

pub zero-bit_and : (y : ℕ) → bit_and 0 y ≡ 0
zero-bit_and = bit_and-bitwise 0
