-- ===== src/Storage/Masks.antt =====
-- The masks of a partial byte, as remainders and quotients by a power of two.
use logic.Base.{
  ℕ, zero, suc, ◌+◌, ◌-◌, ◌*◌, ◌/◌, ◌%◌, ◌^◌, ◌<◌, bit_and, bit_or, ◌≡◌, refl, ap, ap₂, ◌∙◌, arith,
  two-pow_pos, div-fields, mod-fields, sym, ◌≤◌,
}
use native.Mathlib.Nat.{mod-lt}
use logic.Bits.{bit_and-mask, bit_and-high, bit_or-parts}
use logic.Storage.{complement, low_mask, merge}
use logic.Storage.Number.{IsByte}

-- A statement about every shift below 8 is eight statements.
pub below_eight {ℓ} :
    (P : ℕ → Type ℓ) → P 0 → P 1 → P 2 → P 3 → P 4 → P 5 → P 6 → P 7 → (k : ℕ) → k < 8 → P k
below_eight P a b c d e f g i zero h = a
below_eight P a b c d e f g i (suc zero) h = b
below_eight P a b c d e f g i (suc (suc zero)) h = c
below_eight P a b c d e f g i (suc (suc (suc zero))) h = d
below_eight P a b c d e f g i (suc (suc (suc (suc zero)))) h = e
below_eight P a b c d e f g i (suc (suc (suc (suc (suc zero))))) h = f
below_eight P a b c d e f g i (suc (suc (suc (suc (suc (suc zero)))))) h = g
below_eight P a b c d e f g i (suc (suc (suc (suc (suc (suc (suc zero))))))) h = i
below_eight P a b c d e f g i (suc (suc (suc (suc (suc (suc (suc (suc k)))))))) h =
    absurd (omega arith)

pub low_mask_lem : (k : ℕ) → k < 8 → low_mask k ≡ 2 ^ k - 1
unfolding low_mask complement
low_mask_lem = below_eight (λ k. low_mask k ≡ 2 ^ k - 1) refl refl refl refl refl refl refl refl

pub complement_lem : (x : ℕ) → x < 256 → complement x ≡ 255 - x
unfolding complement
complement_lem x h = omega arith

-- A byte whose low bits are replaced by those of a value.
abbrev pub spliced : ℕ → ℕ → ℕ → ℕ
spliced k byte val = byte / 2 ^ k * 2 ^ k + val % 2 ^ k

pub pow-le_byte : (k : ℕ) → k < 8 → 2 ^ k ≤ 128
pow-le_byte =
    below_eight (λ k. 2 ^ k ≤ 128) (omega arith) (omega arith) (omega arith) (omega arith)
      (omega arith) (omega arith) (omega arith) (omega arith)

pub spliced-IsByte : (byte val k : ℕ) → k < 8 → IsByte byte → IsByte (spliced k byte val)
spliced-IsByte byte val =
    below_eight (λ k. IsByte byte → IsByte (spliced k byte val)) (λ b. omega arith)
      (λ b. omega arith) (λ b. omega arith) (λ b. omega arith) (λ b. omega arith) (λ b. omega arith)
      (λ b. omega arith) (λ b. omega arith)

module _ (k byte val : ℕ) (h : k < 8) (b : IsByte byte) where
  kept : bit_and byte (complement (low_mask k)) ≡ byte / 2 ^ k * 2 ^ k
  kept =
      ap (bit_and byte) (
        ap complement (low_mask_lem k h)
        ∙ complement_lem (2 ^ k - 1) (omega (arith, pow-le_byte k h))
        ∙ omega (arith, two-pow_pos k, pow-le_byte k h))
      ∙ bit_and-high k byte h b

  taken : bit_and (low_mask k) val ≡ val % 2 ^ k
  taken = ap (λ t. bit_and t val) (low_mask_lem k h) ∙ bit_and-mask k val

  joined : bit_or (byte / 2 ^ k * 2 ^ k) (val % 2 ^ k) ≡ spliced k byte val
  joined =
      ap₂ bit_or
        (ap (λ q. q * 2 ^ k) (sym (div-fields (byte / 2 ^ k) (2 ^ k) (mod-lt val (two-pow_pos k)))))
        (sym (mod-fields (byte / 2 ^ k) (2 ^ k) (mod-lt val (two-pow_pos k))))
      ∙ bit_or-parts k (spliced k byte val) h (spliced-IsByte byte val k h b)

  -- Keep the high bits of the byte, and take the low ones of the value.
  pub merge_lem : merge k byte val ≡ spliced k byte val
  unfolding merge
  merge_lem = ap₂ bit_or kept taken ∙ joined

  pub merge-IsByte : IsByte (merge k byte val)
  merge-IsByte = rw merge_lem (spliced-IsByte byte val k h b)
