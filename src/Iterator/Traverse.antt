-- ===== src/Iterator/Traverse.antt =====
-- `begin`, `end`, `rbegin` and `rend` of src/logic/bitstream.cpp, and the walks between them.
-- `std::reverse_iterator` dereferences the element before its base, and steps by `--`.
use mathlib.Core.Option
use logic.Base.{
  ℕ, zero, suc, ◌+◌, ◌-◌, ◌%◌, ◌^◌, ◌<◌, ◌≡◌, refl, ap, ◌∙◌, Option, none, some, List, [], ◌∷◌, map,
  arith, if◌then◌else◌, false, lt→ltb, ==_refl, ◌==◌,
}
use logic.Base.Int.{ℤ, pos, negsuc, ◌+ℤ◌, ◌-ℤ◌}
use logic.Reference.{Reference}
use logic.Iterator.{
  Iterator, from_pointer, from_size, from_difference, to_difference, increment, decrement,
  dereference, is_same, clamped,
}

unfoldable pub begin : Option ℕ → Iterator
begin m_bits = from_pointer m_bits

unfoldable pub end : Option ℕ → ℕ → Iterator
end m_bits m_size = from_size m_bits m_size

-- The bases of the reverse iterators; `m_size - 1` is computed in `size_type`.
unfoldable pub rbegin : Option ℕ → ℕ → Iterator
rbegin m_bits m_size = from_size m_bits ((m_size + 2 ^ 64 - 1) % 2 ^ 64)

unfoldable pub rend : Option ℕ → Iterator
rend m_bits = from_difference m_bits (negsuc 0)

-- The references that `for (auto it = first; it != last; ++it)` visits; `none` if the fuel is short.
unfoldable pub walk : ℕ → Iterator → Iterator → Option (List Reference)
walk zero it last = none
walk (suc fuel) it last =
    let rest = Option.map (λ r. dereference it ∷ r) (walk fuel (increment it) last) in
    if is_same it last then some [] else rest

unfoldable pub walk_reverse : ℕ → Iterator → Iterator → Option (List Reference)
walk_reverse zero base last = none
walk_reverse (suc fuel) base last =
    let rest =
      Option.map (λ r. dereference (decrement base) ∷ r)
        (walk_reverse fuel (decrement base) last) in
    if is_same base last then some [] else rest

abbrev pub bit_at : Option ℕ → ℕ → Reference
bit_at p i = record { m_bits = p; m_index = i }

-- i, i + 1, …, i + n - 1
abbrev pub ascending : ℕ → ℕ → List ℕ
ascending i zero = []
ascending i (suc n) = i ∷ ascending (suc i) n

-- One less than each of n - 1, …, 0, and 0 for the last.
abbrev pub lagging : ℕ → List ℕ
lagging zero = []
lagging (suc n) = (n - 1) ∷ lagging n

abbrev at : Option ℕ → ℤ → Iterator
at p i = record { m_bits = p; m_index = i }

next_up : (i : ℕ) → pos i +ℤ pos 1 ≡ pos (suc i)
unfolding ◌+ℤ◌
next_up i = ground arith

next_down : (i : ℕ) → pos (suc i) -ℤ pos 1 ≡ pos i
unfolding ◌-ℤ◌
next_down i = ground arith

module _ (p : Option ℕ) where
  walk_stop : (f i : ℕ) → walk (suc f) (at p (pos i)) (at p (pos i)) ≡ some []
  unfolding walk is_same
  walk_stop f i = rw ==_refl

  walk_step :
      (f i j : ℕ)
      → i < j
      → walk (suc f) (at p (pos i)) (at p (pos j))
        ≡ Option.map (λ r. bit_at p i ∷ r) (walk f (at p (pos (suc i))) (at p (pos j)))
  unfolding walk is_same dereference clamped increment
  walk_step f i j h = rw (differs, next_up)
    where
      differs : (i + 0 == j + 0) ≡ false
      differs = ground arith

  back_stop : (f : ℕ) → walk_reverse (suc f) (at p (negsuc 0)) (at p (negsuc 0)) ≡ some []
  unfolding walk_reverse is_same
  back_stop f = refl

  back_last :
      (f : ℕ)
      → walk_reverse (suc f) (at p (pos 0)) (at p (negsuc 0))
        ≡ Option.map (λ r. bit_at p 0 ∷ r) (walk_reverse f (at p (negsuc 0)) (at p (negsuc 0)))
  unfolding walk_reverse is_same dereference clamped decrement ◌-ℤ◌
  back_last f = refl

  back_step :
      (f n : ℕ)
      → walk_reverse (suc f) (at p (pos (suc n))) (at p (negsuc 0))
        ≡ Option.map (λ r. bit_at p n ∷ r) (walk_reverse f (at p (pos n)) (at p (negsuc 0)))
  unfolding walk_reverse is_same dereference clamped decrement
  back_step f n = rw (differs, next_down)
    where
      differs : (suc n + 1 == 0) ≡ false
      differs = ground arith

  walk_up :
      (n i j : ℕ)
      → i + n ≡ j
      → walk (suc n) (at p (pos i)) (at p (pos j)) ≡ some (map (bit_at p) (ascending i n))
  walk_up zero i j e = let e' : j ≡ i = omega arith in rw e' (walk_stop 0 i)
  walk_up (suc n) i j e =
      walk_step (suc n) i j (omega arith)
      ∙ ap (Option.map (λ r. bit_at p i ∷ r)) (walk_up n (suc i) j (omega arith))

  walk_down :
      (n : ℕ)
      → walk_reverse (suc (suc n)) (at p (pos n)) (at p (negsuc 0))
        ≡ some (map (bit_at p) (lagging (suc n)))
  walk_down zero = back_last 1 ∙ ap (Option.map (λ r. bit_at p 0 ∷ r)) (back_stop 0)
  walk_down (suc n) =
      back_step (suc (suc n)) n
      ∙ ap (Option.map (λ r. bit_at p n ∷ r)) (walk_down n)
      ∙ ap (λ (t : ℕ). some (bit_at p t ∷ map (bit_at p) (lagging (suc n)))) (omega arith)

  to_difference_small : (n : ℕ) → n < 2 ^ 63 → to_difference n ≡ pos n
  unfolding to_difference
  to_difference_small n h = rw (lt→ltb n (2 ^ 63) h)

  -- A forward walk from `begin` to `end` of a stream of fewer than 2 to the 63 bits visits bits 0
  -- to n - 1, each once and in order, and then stops.
  pub walk-begin-end :
      (n : ℕ)
      → n < 2 ^ 63
      → walk (suc n) (begin p) (end p n) ≡ some (map (bit_at p) (ascending 0 n))
  unfolding begin end from_pointer from_size
  walk-begin-end n h = rw (to_difference_small n h) (walk_up n 0 n (omega arith))

  last_index : (n : ℕ) → n < 2 ^ 63 → to_difference ((suc n + 2 ^ 64 - 1) % 2 ^ 64) ≡ pos n
  last_index n h =
      let e : (suc n + 2 ^ 64 - 1) % 2 ^ 64 ≡ n = omega arith in rw e (to_difference_small n h)

  -- A reverse walk from `rbegin` to `rend` of a stream of n bits, 0 < n <= 2 to the 63, stops
  -- after n steps, and step k, from 0, visits the bit below n - 1 - k, where the last step visits
  -- bit 0 again.
  pub walk-rbegin-rend :
      (n : ℕ)
      → n < 2 ^ 63
      → walk_reverse (suc (suc n)) (rbegin p (suc n)) (rend p)
        ≡ some (map (bit_at p) (lagging (suc n)))
  unfolding rbegin rend from_size from_difference
  walk-rbegin-rend n h = rw (last_index n h) (walk_down n)
