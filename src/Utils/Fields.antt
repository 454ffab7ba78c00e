-- ===== src/Utils/Fields.antt =====
-- Reads and writes of single bits and of bytes, include/logic/utils.hpp, for every type.
use logic.Base.{
  ℕ, zero, suc, ◌+◌, ◌*◌, ◌/◌, ◌%◌, ◌^◌, ◌<◌, ◌≤◌, ◌≡◌, ◌≢◌, refl, sym, ap, ◌∙◌, Bool, true, false,
  not, Option, some, none, arith, ltb, leb, ◌==◌, if◌then◌else◌, lt→ltb, Bool-cases, inl, inr,
  le→leb, leb→le, two-pow_pos, ◌⊎◌, ==_iff,
}
use logic.Bits.Digit.{digit, bit_of, digit-replaced, eq_of_digits}
use logic.Bits.Bitwise.{bit_and-pow, digit-mod, digit-div}
use logic.Utils.{
  BitsType, boolean, uint32, uint64, sc_bv, set_uint8, set_bool, test_word, get_bool, byte_of_word,
  get_uint8, bits_type,
}
use logic.Utils.Laws.{
  width, Holds, written, Sets, word-Sets, boolean-Sets, written_one, write_range_lem,
}

as_one :
    {t : BitsType} {result : Option ℕ} (lhs offset : ℕ) (value : Bool)
    → Sets t result (written lhs offset (bit_of value) 1)
    → Sets t result (λ i. if i == offset then bit_of value else digit lhs i)
as_one {t} {result} lhs offset value s = record {
  out = s.out;
  returns = s.returns;
  holds = s.holds;
  stored = λ i h. s.stored i h ∙ written_one lhs offset i value;
}

bit_of-lt : (value : Bool) → bit_of value < 2
bit_of-lt true = omega arith
bit_of-lt false = omega arith

-- A written bit: the other bits of the type are as before.
pub set_bool-Sets :
    (t : BitsType) (lhs offset : ℕ) (value : Bool)
    → offset < width t
    → Holds t lhs
    → Sets t (set_bool t lhs offset value) (λ i. if i == offset then bit_of value else digit lhs i)
unfolding set_bool
set_bool-Sets boolean lhs zero value h k =
    as_one lhs 0 value (boolean-Sets lhs (bit_of value) k (bit_of-lt value))
set_bool-Sets boolean lhs (suc offset) value h k = absurd (omega arith)
set_bool-Sets uint32 lhs offset value h k =
    as_one lhs offset value
      (word-Sets uint32 lhs offset (bit_of value) 1 h (bit_of-lt value) (λ x. tt))
set_bool-Sets uint64 lhs offset value h k =
    as_one lhs offset value
      (word-Sets uint64 lhs offset (bit_of value) 1 h (bit_of-lt value) (λ x. tt))
set_bool-Sets (sc_bv n) lhs offset value h k = record {
  out = _;
  returns = rw (lt→ltb offset n h) refl;
  holds = tt;
  stored = λ i lt.
      digit-replaced lhs offset (bit_of value) i (bit_of-lt value)
      ∙ ap (λ (b : Bool). if b then bit_of value else digit lhs i) (swap offset i);
}
  where
    swap : (a b : ℕ) → (a == b) ≡ (b == a)
    swap a b = ground arith

-- A written byte: the other bits of the type are as before.
pub set_uint8-Sets :
    (t : BitsType) (lhs offset value : ℕ)
    → offset + 7 < width t
    → value < 256
    → Sets t (set_uint8 t lhs offset value) (written lhs offset value 8)
unfolding set_uint8
set_uint8-Sets boolean lhs offset value h k = absurd (omega arith)
set_uint8-Sets uint32 lhs offset value h k =
    word-Sets uint32 lhs offset value 8 (omega arith) k (λ x. tt)
set_uint8-Sets uint64 lhs offset value h k =
    word-Sets uint64 lhs offset value 8 (omega arith) k (λ x. tt)
set_uint8-Sets (sc_bv n) lhs offset value h k = record {
  out = _;
  returns = rw (lt→ltb (offset + 7) n h) refl;
  holds = tt;
  stored = λ i lt. write_range_lem lhs offset value 8 i;
}

-- The bits that `get_bool` can read: of a 64-bit word only the lower half.
abbrev pub Readable : BitsType → ℕ → Type 0
Readable boolean offset = offset < 1
Readable uint32 offset = offset < 32
Readable uint64 offset = offset < 32
Readable (sc_bv n) offset = offset < n

test_word_lem : (lhs offset : ℕ) → offset < 32 → test_word lhs offset ≡ some (digit lhs offset == 1)
unfolding test_word
test_word_lem lhs offset h =
    rw (lt→ltb offset 32 h, bit_and-pow lhs offset)
      (ap some (on_digit (digit lhs offset) (2 ^ offset) (omega arith) (two-pow_pos offset)))
  where
    on_digit : (d p : ℕ) → d < 2 → 1 ≤ p → not (d * p == 0) ≡ (d == 1)
    on_digit zero p h pos = ground arith
    on_digit (suc zero) p h pos = ground arith
    on_digit (suc (suc d)) p h pos = absurd (omega arith)

pub get_bool_lem :
    (t : BitsType) (lhs offset : ℕ)
    → Readable t offset
    → get_bool t lhs offset ≡ some (digit lhs offset == 1)
unfolding get_bool
get_bool_lem boolean lhs offset h = test_word_lem lhs offset (omega arith)
get_bool_lem uint32 lhs offset h = test_word_lem lhs offset h
get_bool_lem uint64 lhs offset h = test_word_lem lhs offset h
get_bool_lem (sc_bv n) lhs offset h = rw (lt→ltb offset n h) refl

-- The upper half of a 64-bit word cannot be read: the shift of `1u` is undefined.
pub get_bool_undefined : (lhs offset : ℕ) → 32 ≤ offset → get_bool uint64 lhs offset ≡ none
unfolding get_bool test_word
get_bool_undefined lhs offset h = ground arith

pub get_uint8_lem :
    (t : BitsType) (lhs offset : ℕ)
    → offset + 7 < width t
    → get_uint8 t lhs offset ≡ some (lhs / 2 ^ offset % 256)
unfolding get_uint8 byte_of_word
get_uint8_lem boolean lhs offset h = absurd (omega arith)
get_uint8_lem uint32 lhs offset h = rw (lt→ltb offset 32 (omega arith)) refl
get_uint8_lem uint64 lhs offset h = rw (lt→ltb offset 64 (omega arith)) refl
get_uint8_lem (sc_bv n) lhs offset h = rw (lt→ltb (offset + 7) n h) refl

digit-byte : (x offset i : ℕ) → i < 8 → digit (x / 2 ^ offset % 256) i ≡ digit x (offset + i)
digit-byte x offset i h = digit-mod 8 (x / 2 ^ offset) i h ∙ digit-div x offset i

-- The bytes of a value whose byte `i` was written.
pub lane-Sets :
    {t : BitsType} (lhs i value : ℕ) {result : Option ℕ}
    (s : Sets t result (written lhs (8 * i) value 8))
    → value < 256
    → (j : ℕ) → 8 * j + 7 < width t
    → s.out / 2 ^ (8 * j) % 256 ≡ (if j == i then value else lhs / 2 ^ (8 * j) % 256)
lane-Sets {t} lhs i value s k j h =
    eq_of_digits 8 _ _ (omega arith) (small j)
      (λ n lt. digit-byte s.out (8 * j) n lt ∙ s.stored (8 * j + n) (omega arith) ∙ same n lt)
  where
    small : (j : ℕ) → (if j == i then value else lhs / 2 ^ (8 * j) % 256) < 256
    small j = ground arith

    same :
        (n : ℕ)
        → n < 8
        → written lhs (8 * i) value 8 (8 * j + n)
          ≡ digit (if j == i then value else lhs / 2 ^ (8 * j) % 256) n
    same n lt = elim (Bool-cases (j == i)) [
      | inl e ↦
          rw
            (
              e,
              le→leb (8 * i) (8 * j + n) (omega (arith, (==_iff j i).0 e)),
              lt→ltb (8 * j + n) (8 * i + 8) (omega (arith, (==_iff j i).0 e)),
            )
            (ap (digit value) (omega (arith, (==_iff j i).0 e)))
      | inr e ↦ rw e (outside (8 * i) (8 * j + n) (apart e) ∙ sym (digit-byte lhs (8 * j) n lt))
    ]
      where
        outside : (o p : ℕ) → (p < o) ⊎ (o + 8 ≤ p) → written lhs o value 8 p ≡ digit lhs p
        outside o p (inl below) = ground arith
        outside o p (inr above) = ground arith

        apart : (j == i) ≡ false → (8 * j + n < 8 * i) ⊎ (8 * i + 8 ≤ 8 * j + n)
        apart e = elim (Bool-cases (ltb j i)) [
          | inl below ↦ inl (ground arith)
          | inr above ↦ inr (ground arith)
        ]

-- The type for `n` bits holds them; those that `get_bool` can read are all of them, but for a width
-- between 33 and 64, where they are the lower 32.
pub record Typed (n : ℕ) : Type 0 where
  pub t : BitsType
  pub chosen : bits_type n ≡ some t
  pub wide : n ≤ width t
  pub readable : (i : ℕ) → i < n → (i < 32) ⊎ (64 < n) → Readable t i
  pub holds_of : (x : ℕ) → (n ≡ 1 → x < 2) → Holds t x
  pub below_two : (x : ℕ) → Holds t x → n ≡ 1 → x < 2

pub bits_type-Typed : (n : ℕ) → 1 ≤ n → Typed n
bits_type-Typed n h = elim (Bool-cases (n == 1)) [
  | inl one ↦ record {
    t = boolean;
    chosen = unfold bits_type in ground arith;
    wide = omega (arith, (==_iff n 1).0 one);
    readable = λ i lt r. omega (arith, (==_iff n 1).0 one);
    holds_of = λ x h. h ((==_iff n 1).0 one);
    below_two = λ x h e. h;
  }
  | inr more ↦ elim (Bool-cases (leb n 32)) [
    | inl low ↦ record {
      t = uint32;
      chosen = unfold bits_type in ground arith;
      wide = leb→le n 32 low;
      readable = λ i lt r. omega (arith, leb→le n 32 low);
      holds_of = λ x h. tt;
      below_two = λ x h e. absurd (ne more e);
    }
    | inr high ↦ elim (Bool-cases (leb n 64)) [
      | inl mid ↦ record {
        t = uint64;
        chosen = unfold bits_type in ground arith;
        wide = leb→le n 64 mid;
        readable = λ i lt r. lower i r (leb→le n 64 mid);
        holds_of = λ x h. tt;
        below_two = λ x h e. absurd (ne more e);
      }
      | inr long ↦ record {
        t = sc_bv n;
        chosen = unfold bits_type in ground arith;
        wide = omega arith;
        readable = λ i lt r. lt;
        holds_of = λ x h. tt;
        below_two = λ x h e. absurd (ne more e);
      }
    ]
  ]
]
  where
    lower : (i : ℕ) → (i < 32) ⊎ (64 < n) → n ≤ 64 → i < 32
    lower i (inl low) k = low
    lower i (inr high) k = absurd (omega arith)

    ne : (n == 1) ≡ false → n ≢ 1
    ne more e = ground arith

pub bits_type_middle : (n : ℕ) → 32 < n → n ≤ 64 → bits_type n ≡ some uint64
unfolding bits_type
bits_type_middle n h k = ground arith
