-- ===== src/Bitstream/Whole.antt =====
-- The methods of `bitstream` in src/logic/bitstream.cpp that act on the whole width, or on one bit.
use logic.Base.{ℕ, ◌%◌, ◌^◌, ◌≤◌, ◌≡◌, ap, ◌∙◌, Option, some, List, min, arith}
use logic.Bitstream.Defs.{Bitstream, assign, assign_from, value, copy_to, resize, clamp}
use logic.Bitstream.Valid.{IsValid, clamp-eq-min}
use logic.Bitstream.Values.{value-assign}
use logic.Reference.{Reference}

-- The bits of `std::uintmax_t`.
abbrev pub word_bits : ℕ
word_bits = 64

unfoldable pub assign_word : ℕ → Bitstream → Option Bitstream
assign_word val s = assign val word_bits s

unfoldable pub assign_memory : List ℕ → Bitstream → Option Bitstream
assign_memory src s = assign_from src s.m_size s

unfoldable pub word_value : Bitstream → Option ℕ
word_value s = value word_bits s

unfoldable pub copy_whole : List ℕ → Bitstream → Option (List ℕ)
copy_whole dst s = copy_to dst s.m_size s

-- `size(n)` and `size()`
unfoldable pub set_size : ℕ → Bitstream → Option Bitstream
set_size n s = resize n s

unfoldable pub get_size : Bitstream → ℕ
get_size s = s.m_size

-- `bits[index]` of a stream whose buffer is at that address.
unfoldable pub bit : Option ℕ → ℕ → Reference
bit m_bits index = record { m_bits = m_bits; m_index = index }

-- On a valid stream of any width, `assign(val)` returns, and `value()` then gives the value, cut to
-- the stream's width or to 64 bits, whichever is less.
word_value-assign_word :
    (val : ℕ) (s : Bitstream)
    → IsValid s
    → (t : Bitstream) × (assign_word val s ≡ some t)
      × (word_value t ≡ some (val % 2 ^ min s.m_size 64))
unfolding assign_word word_value
word_value-assign_word val s v =
    let (t, stored, read) = value-assign val word_bits s v (small s.m_size) in
    (t, stored, read ∙ ap (λ (n : ℕ). some (val % 2 ^ n)) (clamp-eq-min s.m_size word_bits))
  where
    small : (m : ℕ) → clamp m word_bits ≤ 64
    small m = unfold clamp in ground arith
