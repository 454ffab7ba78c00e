-- ===== src/Bitstream/Equal.antt =====
-- `operator==` compares the numbers that two buffers hold, whatever their widths.
use logic.Base.{
  ℕ, zero, suc, ◌+◌, ◌-◌, ◌*◌, ◌^◌, ◌≤◌, ◌<◌, ◌≡◌, refl, sym, ap, ◌∙◌, false, true, some, List, [],
  ◌∷◌, arith, length, take, drop, ltb, ◌==◌, Bool-cases, ◌>>=◌, inl, inr, if◌then◌else◌, Bool, min,
  max, take-append-drop, length-take, All-take, length-drop, ltb→lt, ltb-false,
}
use native.Mathlib.Nat.{mul-suc}
use logic.Storage.{size}
use logic.Storage.Number.{IsByte, AreBytes, number, number-append, number-lt}
use logic.Bitstream.Defs.{Bitstream, equal, all_zero, is_equal}
use logic.Bitstream.Valid.{IsValid, size_lem}

byte-== :
    (x y m n : ℕ)
    → x < 256
    → y < 256
    → (if x == y then m == n else false) ≡ (x + 256 * m == y + 256 * n)
byte-== x y m n h k = ground arith

some_if : (b c : Bool) → (if b then some c else some false) ≡ some (if b then c else false)
some_if true c = refl
some_if false c = refl

equal_lem :
    (xs : List ℕ) (n : ℕ) (ys : List ℕ)
    → n ≤ length xs
    → n ≤ length ys
    → AreBytes xs
    → AreBytes ys
    → equal xs n ys ≡ some (number (take n xs) == number (take n ys))
unfolding equal number
equal_lem xs zero ys p q h k = refl
equal_lem [] (suc n) ys p q h k = absurd (omega arith)
equal_lem (x ∷ xs) (suc n) [] p q h k = absurd (omega arith)
equal_lem (x ∷ xs) (suc n) (y ∷ ys) p q h k =
    ap (λ r. if x == y then r else some false)
      (equal_lem xs n ys (omega arith) (omega arith) h.1 k.1)
    ∙ some_if (x == y) (number (take n xs) == number (take n ys))
    ∙ ap some (byte-== x y (number (take n xs)) (number (take n ys)) h.0 k.0)

zero-== : (x m : ℕ) → (if 0 == x then 0 == m else false) ≡ (0 == x + 256 * m)
zero-== x m = ground arith

all_zero_lem : (bits : List ℕ) (n : ℕ) → n ≡ length bits → all_zero bits n ≡ some (0 == number bits)
unfolding all_zero number
all_zero_lem [] zero e = refl
all_zero_lem [] (suc n) e = absurd (omega arith)
all_zero_lem (x ∷ bits) zero e = absurd (omega arith)
all_zero_lem (x ∷ bits) (suc n) e =
    ap (λ r. if 0 == x then r else some false) (all_zero_lem bits n (omega arith))
    ∙ some_if (0 == x) (0 == number bits)
    ∙ ap some (zero-== x (number bits))

take_all : (xs : List ℕ) (n : ℕ) → n ≡ length xs → take n xs ≡ xs
take_all [] zero e = refl
take_all [] (suc n) e = absurd (omega arith)
take_all (x ∷ xs) zero e = absurd (omega arith)
take_all (x ∷ xs) (suc n) e = ap (λ r. x ∷ r) (take_all xs n (omega arith))

-- The bytes that both buffers have, then zeros in the longer one.
parts-== : (a b c p : ℕ) → a < p → b < p → (if a == b then 0 == c else false) ≡ (a == b + p * c)
parts-== a b zero p h k = ground arith
parts-== a b (suc c) p h k = ground (arith, mul-suc p c)

==_comm : (a b : ℕ) → (a == b) ≡ (b == a)
==_comm a b = ground arith

-- The body of `operator==` once the shorter and the longer buffer are known.
module _ (short long : List ℕ) (h : AreBytes short) (k : AreBytes long)
    (le : length short ≤ length long) where
  tail_zero :
      all_zero (drop (length short) long) (length long - length short)
      ≡ some (0 == number (drop (length short) long))
  tail_zero =
      all_zero_lem (drop (length short) long) (length long - length short)
        (omega (arith, length-drop {0} (length short) long))

  taken-lt : number (take (length short) long) < 2 ^ (8 * length short)
  taken-lt =
      ap_lt (length-take (length short) long)
        (number-lt (take (length short) long) (All-take IsByte (length short) long k))
    where
      ap_lt :
          length (take (length short) long) ≡ min (length short) (length long)
          → number (take (length short) long) < 2 ^ (8 * length (take (length short) long))
          → number (take (length short) long) < 2 ^ (8 * length short)
      ap_lt e lt =
          let e' : length (take (length short) long) ≡ length short = omega arith in rw e' at lt

  long_number :
      number (take (length short) long) + 2 ^ (8 * length short) * number (drop (length short) long)
      ≡ number long
  long_number =
      ap
        (λ (t : ℕ).
          number (take (length short) long) + 2 ^ (8 * t) * number (drop (length short) long))
        count
      ∙ sym (number-append (take (length short) long) (drop (length short) long))
      ∙ ap number (take-append-drop (length short) long)
    where
      count : length short ≡ length (take (length short) long)
      count = omega (arith, length-take {0} (length short) long)

  padded :
      (if number short == number (take (length short) long)
        then all_zero (drop (length short) long) (length long - length short)
        else some false)
      ≡ some (number short == number long)
  padded =
      ap (λ r. if number short == number (take (length short) long) then r else some false)
        tail_zero
      ∙ some_if _ _
      ∙ ap some (
          parts-== (number short) (number (take (length short) long))
            (number (drop (length short) long)) (2 ^ (8 * length short)) (number-lt short h)
            taken-lt
          ∙ ap (λ t. number short == t) long_number)

module _ (s other : Bitstream) (v : IsValid s) (w : IsValid other) where
  common : s.m_size ≤ other.m_size → size (min s.m_size other.m_size) ≡ length s.m_bits
  common le =
      size_lem (min s.m_size other.m_size) (omega (arith, v.fits)) ∙ omega (arith, v.allocated)

  common_other : other.m_size ≤ s.m_size → size (min s.m_size other.m_size) ≡ length other.m_bits
  common_other le =
      size_lem (min s.m_size other.m_size) (omega (arith, w.fits)) ∙ omega (arith, w.allocated)

  total : s.m_size ≤ other.m_size → size (max s.m_size other.m_size) ≡ length other.m_bits
  total le =
      size_lem (max s.m_size other.m_size) (omega (arith, w.fits)) ∙ omega (arith, w.allocated)

  total_other : other.m_size ≤ s.m_size → size (max s.m_size other.m_size) ≡ length s.m_bits
  total_other le =
      size_lem (max s.m_size other.m_size) (omega (arith, v.fits)) ∙ omega (arith, v.allocated)

is_equal_sizes :
    (s other : Bitstream) (bytes total : ℕ)
    → size (min s.m_size other.m_size) ≡ bytes
    → size (max s.m_size other.m_size) ≡ total
    → is_equal s other ≡ (
        equal s.m_bits bytes other.m_bits >>= λ result.
        if result
        then all_zero
            (drop bytes (if ltb s.m_size other.m_size then other.m_bits else s.m_bits))
            (total - bytes)
        else some false)
unfolding is_equal
is_equal_sizes s other bytes total p q = rw (p, q)

-- `==` of two valid streams stays inside both buffers, and it is true exactly when the buffers hold
-- the same number, whatever the two widths are.
pub is_equal_lem :
    (s other : Bitstream)
    → IsValid s
    → IsValid other
    → is_equal s other ≡ some (number s.m_bits == number other.m_bits)
is_equal_lem s other v w = elim (Bool-cases (ltb s.m_size other.m_size)) [
  | inl narrower ↦
      let lt : s.m_size < other.m_size = ltb→lt s.m_size other.m_size narrower in
      is_equal_sizes s other (length s.m_bits) (length other.m_bits)
        (common s other v w (omega arith)) (total s other v w (omega arith))
      ∙ rw narrower (
          rw
            (
              equal_lem s.m_bits (length s.m_bits) other.m_bits (omega arith)
                  (omega (arith, v.allocated, w.allocated)) v.are_bytes w.are_bytes,
              take_all s.m_bits (length s.m_bits) refl,
            )
            (padded s.m_bits other.m_bits v.are_bytes w.are_bytes
              (omega (arith, v.allocated, w.allocated))))
  | inr wider ↦
      let le : other.m_size ≤ s.m_size = ltb-false s.m_size other.m_size wider in
      is_equal_sizes s other (length other.m_bits) (length s.m_bits) (common_other s other v w le)
        (total_other s other v w le)
      ∙ rw wider (
          rw
            (
              equal_lem s.m_bits (length other.m_bits) other.m_bits
                  (omega (arith, v.allocated, w.allocated)) (omega arith) v.are_bytes w.are_bytes,
              take_all other.m_bits (length other.m_bits) refl,
            )
            (ap
                (λ c.
                  if c
                  then all_zero (drop (length other.m_bits) s.m_bits)
                      (length s.m_bits - length other.m_bits)
                  else some false)
                (==_comm (number (take (length other.m_bits) s.m_bits)) (number other.m_bits))
              ∙ padded other.m_bits s.m_bits w.are_bytes v.are_bytes
                  (omega (arith, v.allocated, w.allocated))
              ∙ ap some (==_comm (number other.m_bits) (number s.m_bits))))
]
