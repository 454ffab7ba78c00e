-- ===== src/Utils/Laws.antt =====
-- What `set` and `get` of include/logic/utils.hpp do to the digits of a value, for every type.
use mathlib.Core.Option
use logic.Base.{
  ℕ, zero, suc, ◌+◌, ◌-◌, ◌*◌, ◌^◌, ◌<◌, ◌≤◌, ◌≡◌, refl, sym, ap, ap₂, ◌∙◌, Bool, true, false, ◌&&◌,
  Option, some, arith, min, max, ltb, leb, ◌==◌, ==_iff, if◌then◌else◌, lt→ltb, le→leb, ltb-false,
  two-pow_pos, Bool-cases, inl, inr,
}
use native.Mathlib.Nat.{mod-lt, pow-suc}
use logic.Bits.Digit.{digit, digit-suc, bit_of, digit-replaced}
use logic.Bits.Bitwise.{
  digit-bit_and, digit-bit_or, digit-not_word, digit-shift, digit-mod, digit-high,
}
use logic.Utils.{BitsType, boolean, uint32, uint64, sc_bv, set_word, to_bool, write_range}

abbrev pub width : BitsType → ℕ
width boolean = 1
width uint32 = 32
width uint64 = 64
width (sc_bv n) = n

-- A `bool` is 0 or 1.
abbrev pub Holds : BitsType → ℕ → Type 0
Holds boolean x = x < 2
Holds uint32 x = Unit {0}
Holds uint64 x = Unit {0}
Holds (sc_bv n) x = Unit {0}

-- The digits after `count` of them, from `offset` on, were written with those of `rhs`.
abbrev pub written : ℕ → ℕ → ℕ → ℕ → ℕ → ℕ
written lhs offset rhs count i =
    if leb offset i && ltb i (offset + count) then digit rhs (i - offset) else digit lhs i

digit-low_ones : (k i : ℕ) → digit (2 ^ k - 1) i ≡ bit_of (ltb i k)
digit-low_ones zero i = digit-high 0 0 i (omega arith) (omega arith) ∙ sym (nothing i)
  where
    nothing : (i : ℕ) → bit_of (ltb i 0) ≡ 0
    nothing i = ground arith
digit-low_ones (suc k) zero = lowest (2 ^ k) (two-pow_pos k) (pow-suc 2 k) ∙ sym (inside k)
  where
    lowest : (p : ℕ) {q : ℕ} → 1 ≤ p → q ≡ p * 2 → digit (q - 1) 0 ≡ 1
    lowest p h e = omega arith

    inside : (k : ℕ) → bit_of (ltb 0 (suc k)) ≡ 1
    inside k = ground arith
digit-low_ones (suc k) (suc i) =
    digit-suc (2 ^ suc k - 1) i
    ∙ ap (λ (t : ℕ). digit t i) (omega (arith, pow-suc 2 k, two-pow_pos k))
    ∙ digit-low_ones k i
    ∙ shifted i k
  where
    shifted : (i k : ℕ) → bit_of (ltb i k) ≡ bit_of (ltb (suc i) (suc k))
    shifted i k = ground arith

-- A word after `set`: the digits of the field are new and the others as before.
set_word_lem :
    (w lhs offset rhs count : ℕ)
    → offset < w
    → rhs < 2 ^ count
    → (out : ℕ) × (set_word w lhs offset (2 ^ count - 1) rhs ≡ some out)
      × ((i : ℕ) → i < w → digit out i ≡ written lhs offset rhs count i)
unfolding set_word
set_word_lem w lhs offset rhs count h r = (
  _,
  rw (lt→ltb offset w h) refl,
  λ i lt.
      digit-bit_or _ _ i
      ∙ ap₂ max
          (digit-bit_and lhs _ i
            ∙ ap (λ (t : ℕ). min (digit lhs i) t)
                (digit-not_word w _ i (mod-lt _ (two-pow_pos w)) lt
                  ∙ ap (λ (t : ℕ). 1 - t)
                      (digit-mod w _ i lt
                        ∙ digit-shift (2 ^ count - 1) offset i
                        ∙ ap (λ (t : ℕ). if ltb i offset then 0 else t)
                            (digit-low_ones count (i - offset)))))
          (digit-mod w _ i lt ∙ digit-shift rhs offset i)
      ∙ merged i,
)
  where
    merged :
        (i : ℕ)
        → max
            (min (digit lhs i) (1 - (if ltb i offset then 0 else bit_of (ltb (i - offset) count))))
            (if ltb i offset then 0 else digit rhs (i - offset))
          ≡ written lhs offset rhs count i
    merged i = elim (Bool-cases (ltb (i - offset) count)) [
      | inl inside ↦ ground arith
      | inr outside ↦
          ground (arith, digit-high count rhs (i - offset) r (ltb-false (i - offset) count outside))
    ]

-- The value after `set`, and its digits within the type.
pub record Sets (t : BitsType) (result : Option ℕ) (digits : ℕ → ℕ) : Type 0 where
  pub out : ℕ
  pub returns : result ≡ some out
  pub holds : Holds t out
  pub stored : (i : ℕ) → i < width t → digit out i ≡ digits i

pub word-Sets :
    (t : BitsType) (lhs offset rhs count : ℕ)
    → offset < width t
    → rhs < 2 ^ count
    → ((x : ℕ) → Holds t x)
    → Sets t (set_word (width t) lhs offset (2 ^ count - 1) rhs) (written lhs offset rhs count)
word-Sets t lhs offset rhs count h r any =
    let (out, returns, stored) = set_word_lem (width t) lhs offset rhs count h r in
    record { out = out; returns = returns; holds = any out; stored = stored }

boolean_stored : (lhs rhs i : ℕ) → i < 1 → digit rhs i ≡ written lhs 0 rhs 1 i
boolean_stored lhs rhs zero h = ground arith
boolean_stored lhs rhs (suc i) h = absurd (omega arith)

-- On a `bool`, the only bit is the written one.
pub boolean-Sets :
    (lhs rhs : ℕ)
    → lhs < 2
    → rhs < 2
    → Sets boolean (Option.map to_bool (set_word 32 lhs 0 1 rhs)) (written lhs 0 rhs 1)
unfolding set_word
boolean-Sets zero zero h k = record {
  out = 0;
  returns = refl;
  holds = omega arith;
  stored = boolean_stored 0 0;
}
boolean-Sets zero (suc zero) h k = record {
  out = 1;
  returns = refl;
  holds = omega arith;
  stored = boolean_stored 0 1;
}
boolean-Sets zero (suc (suc r)) h k = absurd (omega arith)
boolean-Sets (suc zero) zero h k = record {
  out = 0;
  returns = refl;
  holds = omega arith;
  stored = boolean_stored 1 0;
}
boolean-Sets (suc zero) (suc zero) h k = record {
  out = 1;
  returns = refl;
  holds = omega arith;
  stored = boolean_stored 1 1;
}
boolean-Sets (suc zero) (suc (suc r)) h k = absurd (omega arith)
boolean-Sets (suc (suc l)) rhs h k = absurd (omega arith)

pub written_one :
    (lhs offset i : ℕ) (value : Bool)
    → written lhs offset (bit_of value) 1 i ≡ (if i == offset then bit_of value else digit lhs i)
written_one lhs offset i true = ground arith
written_one lhs offset i false = ground arith

pub write_range_lem :
    (lhs offset rhs count i : ℕ)
    → digit (write_range lhs offset rhs count) i ≡ written lhs offset rhs count i
unfolding write_range
write_range_lem lhs offset rhs zero i = ground arith
write_range_lem lhs offset rhs (suc count) i =
    digit-replaced (write_range lhs offset rhs count) (offset + count) (digit rhs count) i
      (omega arith)
    ∙ ap (λ (t : ℕ). if offset + count == i then digit rhs count else t)
        (write_range_lem lhs offset rhs count i)
    ∙ last i
  where
    last :
        (i : ℕ)
        → (if offset + count == i then digit rhs count else written lhs offset rhs count i)
          ≡ written lhs offset rhs (suc count) i
    last i = elim (Bool-cases (offset + count == i)) [
      | inl same ↦ rw same (at_end i ((==_iff (offset + count) i).0 same))
      | inr differ ↦ ground arith
    ]
      where
        at_end :
            (i : ℕ) → offset + count ≡ i → digit rhs count ≡ written lhs offset rhs (suc count) i
        at_end i e =
            rw
              (le→leb offset i (omega (arith, e)), lt→ltb i (offset + suc count) (omega (arith, e)))
              (ap (digit rhs) (omega (arith, e)))
