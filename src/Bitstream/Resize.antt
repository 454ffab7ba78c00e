-- ===== src/Bitstream/Resize.antt =====
-- Construction, copies, `resize` and `clear`.
use logic.Base.{
  ℕ, zero, suc, ◌+◌, ◌*◌, ◌/◌, ◌%◌, ◌^◌, ◌<◌, ◌≡◌, refl, sym, ap, ◌∙◌, false, true, some, List, [],
  ◌∷◌, ◌++◌, arith, length, take, drop, replicate, ◌==◌, Bool-cases, inl, inr, min, length-take,
  All-take, All-append, All-drop, All-replicate, length-drop, length-append, length-replicate,
  ==_iff,
}
use mathlib.Core.List.{append-nil}
use native.Mathlib.Nat.{mul-zero, zero-div, mod-eq_of_lt}
use logic.Storage.{size, copy_n}
use logic.Storage.Blocks.{copy_n_lem, fill_n_lem}
use logic.Storage.Number.{
  IsByte, number, number-append, number-lt, number-take, number-replicate-zero, number-drop,
}
use logic.Bitstream.Defs.{Bitstream, empty, make, copy_of, resize, clear}
use logic.Bitstream.Valid.{IsValid, size_lem}

pub empty-IsValid : IsValid empty
empty-IsValid = record { fits = omega arith; allocated = refl; are_bytes = tt }

pub make-IsValid : (n : ℕ) → n + 7 < 2 ^ 64 → IsValid (make n)
unfolding make
make-IsValid n h = record {
  fits = h;
  allocated = length-replicate (size n) 0 ∙ size_lem n h;
  are_bytes = All-replicate IsByte (size n) 0 (omega arith);
}

pub number-make : (n : ℕ) → number (make n).m_bits ≡ 0
unfolding make
number-make n = number-replicate-zero (size n)

-- A block copy into a buffer of the same byte count.
take-drop_all :
    (xs ys : List ℕ) (n : ℕ) → n ≡ length xs → n ≡ length ys → take n xs ++ drop n ys ≡ xs
take-drop_all [] [] zero p q = refl
take-drop_all [] [] (suc n) p q = absurd (omega arith)
take-drop_all [] (y ∷ ys) n p q = absurd (omega arith)
take-drop_all (x ∷ xs) [] n p q = absurd (omega arith)
take-drop_all (x ∷ xs) (y ∷ ys) zero p q = absurd (omega arith)
take-drop_all (x ∷ xs) (y ∷ ys) (suc n) p q =
    ap (λ r. x ∷ r) (take-drop_all xs ys n (omega arith) (omega arith))

-- The copy of a valid stream is the same stream, whatever the fresh memory held.
copy_of_lem : (garbage : ℕ) (other : Bitstream) → IsValid other → copy_of garbage other ≡ some other
unfolding copy_of
copy_of_lem garbage other v =
    let e : size other.m_size ≡ length other.m_bits =
      size_lem other.m_size v.fits ∙ sym v.allocated in
    rw
      (copy_n_lem other.m_bits (size other.m_size) (replicate (size other.m_size) garbage)
        (omega arith) (omega (arith, length-replicate {0} (size other.m_size) garbage)))
      (ap (λ bits. some (record { m_bits = bits; m_size = other.m_size }))
        (take-drop_all other.m_bits (replicate (size other.m_size) garbage) (size other.m_size) e
          (sym (length-replicate (size other.m_size) garbage))))

drop_all : (zeros xs : List ℕ) (n : ℕ) → n ≡ length xs → zeros ++ drop n xs ≡ zeros
drop_all zeros [] zero e = append-nil zeros
drop_all zeros [] (suc n) e = absurd (omega arith)
drop_all zeros (x ∷ xs) zero e = absurd (omega arith)
drop_all zeros (x ∷ xs) (suc n) e = drop_all zeros xs n (omega arith)

-- Clearing a valid stream stays inside the buffer and leaves the stream that the constructor makes
-- for its width.
clear_lem : (s : Bitstream) → IsValid s → clear s ≡ some (make s.m_size)
unfolding clear make
clear_lem s v =
    let e : size s.m_size ≡ length s.m_bits = size_lem s.m_size v.fits ∙ sym v.allocated in
    rw (fill_n_lem s.m_bits (size s.m_size) 0 (omega arith)) (
      ap (λ bits. some (record { m_bits = bits; m_size = s.m_size }))
        (drop_all (replicate (size s.m_size) 0) s.m_bits (size s.m_size) e))

abbrev zero_byte : ℕ
zero_byte = 0

zeros_dropped : (n m : ℕ) → number (drop n (replicate m 0)) ≡ 0
zeros_dropped n m =
    number-drop n (replicate m 0) (All-replicate IsByte m 0 (omega arith))
    ∙ rw number-replicate-zero (zero-div (2 ^ (8 * n)))

-- A resized stream: as many whole bytes as both widths need are kept, and new bytes are zero.
pub record Resized (s : Bitstream) (val : ℕ) : Type 0 where
  pub out : Bitstream
  pub returns : resize val s ≡ some out
  pub valid : IsValid out
  pub new_size : out.m_size ≡ val
  pub kept : number out.m_bits ≡ number s.m_bits % 2 ^ (8 * ((min s.m_size val + 7) / 8))

module _ (s : Bitstream) (val : ℕ) (v : IsValid s) (h : val + 7 < 2 ^ 64) where
  same_width : s.m_size ≡ val → Resized s val
  unfolding resize
  same_width e = record {
    out = s;
    returns = rw (same_test e);
    valid = v;
    new_size = e;
    kept = sym (
        mod-eq_of_lt (
          let count : length s.m_bits ≡ (min s.m_size val + 7) / 8 = omega (arith, v.allocated) in
          rw (← count) (number-lt s.m_bits v.are_bytes)));
  }
    where
      same_test : s.m_size ≡ val → (s.m_size == val) ≡ true
      same_test p = (==_iff s.m_size val).1 p

  abbrev common : ℕ
  common = size (min s.m_size val)

  abbrev moved : List ℕ
  moved = take common s.m_bits ++ drop common (replicate (size val) 0)

  common_lem : common ≡ (min s.m_size val + 7) / 8
  common_lem = size_lem (min s.m_size val) (omega (arith, v.fits))

  copied : copy_n s.m_bits common (replicate (size val) 0) ≡ some moved
  copied =
      copy_n_lem s.m_bits common (replicate (size val) 0) (omega (arith, common_lem, v.allocated))
        (omega (arith, common_lem, size_lem val h, length-replicate (size val) zero_byte))

  moved_lem : number moved ≡ number s.m_bits % 2 ^ (8 * ((min s.m_size val + 7) / 8))
  moved_lem =
      number-append (take common s.m_bits) (drop common (replicate (size val) 0))
      ∙ rw zeros_dropped (omega (arith, mul-zero (2 ^ (8 * length (take common s.m_bits)))))
      ∙ number-take common s.m_bits v.are_bytes
      ∙ ap (λ (t : ℕ). number s.m_bits % 2 ^ (8 * t)) common_lem

  moved-IsValid : IsValid (record { m_bits = moved; m_size = val })
  moved-IsValid = record {
    fits = h;
    allocated = omega (
      arith,
      length-append (take common s.m_bits) (drop common (replicate (size val) 0)),
      length-take {0} common s.m_bits,
      length-drop common (replicate (size val) zero_byte),
      length-replicate (size val) zero_byte,
      common_lem,
      size_lem val h,
      v.allocated,
    );
    are_bytes =
        All-append IsByte (take common s.m_bits) (drop common (replicate (size val) 0))
          (All-take IsByte common s.m_bits v.are_bytes)
          (All-drop IsByte common (replicate (size val) 0)
            (All-replicate IsByte (size val) 0 (omega arith)));
  }

  other_width : (s.m_size == val) ≡ false → Resized s val
  unfolding resize
  other_width e = record {
    out = record { m_bits = moved; m_size = val };
    returns = rw (e, copied);
    valid = moved-IsValid;
    new_size = refl;
    kept = moved_lem;
  }

-- Resizing a valid stream to a width that can be rounded up to bytes stays inside both buffers and
-- returns a valid stream of that width; it keeps as many whole bytes as the smaller width needs,
-- also the bits of the last one that are above that width, and new bytes are zero.
pub resize-Resized : (s : Bitstream) (val : ℕ) → IsValid s → val + 7 < 2 ^ 64 → Resized s val
resize-Resized s val v h = elim (Bool-cases (s.m_size == val)) [
  | inl same ↦ same_width s val v h ((==_iff s.m_size val).0 same)
  | inr other ↦ other_width s val v h other
]
