-- ===== src/Iterator.antt =====
-- src/logic/bitstream_iterator.cpp and src/logic/bitstream_const_iterator.cpp: a pointer to a byte
-- buffer and a signed bit index. `std::ptrdiff_t` is an unbounded integer here: an index that
-- overflows it is undefined in C++.
pub mod Laws
pub mod Traverse
use logic.Base.{
  ℕ, ◌+◌, ◌-◌, ◌/◌, ◌^◌, Bool, true, false, not, Option, none, some, ltb, ◌==◌, if◌then◌else◌,
}
use logic.Base.Int.{ℤ, pos, negsuc, pos_part, neg_part, ◌+ℤ◌, ◌-ℤ◌, ltb_ℤ}
use logic.Reference.{Reference, ConstReference}

pub record Iterator : Type 0 where
  pub m_bits : Option ℕ
  pub m_index : ℤ

-- `difference_type(index)` of a `size_type`: two's complement.
unfoldable pub to_difference : ℕ → ℤ
to_difference index = if ltb index (2 ^ 63) then pos index else negsuc (2 ^ 64 - index - 1)

unfoldable pub from_pointer : Option ℕ → Iterator
from_pointer bits = record { m_bits = bits; m_index = pos 0 }

unfoldable pub from_size : Option ℕ → ℕ → Iterator
from_size bits index = record { m_bits = bits; m_index = to_difference index }

unfoldable pub from_difference : Option ℕ → ℤ → Iterator
from_difference bits index = record { m_bits = bits; m_index = index }

-- `++it`, `it++`, `--it`, `it--`: the new iterator, and the result of a postfix form.
unfoldable pub increment : Iterator → Iterator
increment it = record it { m_index = it.m_index +ℤ pos 1 }

unfoldable pub increment_postfix : Iterator → Iterator × Iterator
increment_postfix it = let tmp = it in (record it { m_index = it.m_index +ℤ pos 1 }, tmp)

unfoldable pub decrement : Iterator → Iterator
decrement it = record it { m_index = it.m_index -ℤ pos 1 }

unfoldable pub decrement_postfix : Iterator → Iterator × Iterator
decrement_postfix it = let tmp = it in (record it { m_index = it.m_index -ℤ pos 1 }, tmp)

-- `it + n`, `it - n`; `+=` and `-=` store the same.
unfoldable pub plus : Iterator → ℤ → Iterator
plus it n = record { m_bits = it.m_bits; m_index = it.m_index +ℤ n }

unfoldable pub plus_assign : ℤ → Iterator → Iterator
plus_assign n it = record it { m_index = it.m_index +ℤ n }

unfoldable pub minus : Iterator → ℤ → Iterator
minus it n = record { m_bits = it.m_bits; m_index = it.m_index -ℤ n }

unfoldable pub minus_assign : ℤ → Iterator → Iterator
minus_assign n it = record it { m_index = it.m_index -ℤ n }

-- `(index >= 0) ? size_type(index) : 0`
unfoldable pub clamped : ℤ → ℕ
clamped (pos n) = n
clamped (negsuc n) = 0

-- `it[n]` and `*it`
unfoldable pub subscript : Iterator → ℤ → Reference
subscript it n =
    let index = it.m_index +ℤ n in record { m_bits = it.m_bits; m_index = clamped index }

unfoldable pub dereference : Iterator → Reference
dereference it = record { m_bits = it.m_bits; m_index = clamped it.m_index }

-- `operator bool`
unfoldable pub is_set : Iterator → Bool
is_set it = elim it.m_bits [ none ↦ false | some p ↦ true ]

-- The orders compare the indices alone.
unfoldable pub is_less : Iterator → Iterator → Bool
is_less it other = ltb_ℤ it.m_index other.m_index

unfoldable pub is_less_equal : Iterator → Iterator → Bool
is_less_equal it other = not (ltb_ℤ other.m_index it.m_index)

unfoldable pub is_greater : Iterator → Iterator → Bool
is_greater it other = ltb_ℤ other.m_index it.m_index

unfoldable pub is_greater_equal : Iterator → Iterator → Bool
is_greater_equal it other = not (ltb_ℤ it.m_index other.m_index)

unfoldable pub is_same : Iterator → Iterator → Bool
is_same it other =
    pos_part it.m_index + neg_part other.m_index == pos_part other.m_index + neg_part it.m_index

unfoldable pub is_other : Iterator → Iterator → Bool
is_other it other = not (is_same it other)

-- A const iterator holds an iterator, forwards to it, and gives out const references.
pub record ConstIterator : Type 0 where
  pub m_iterator : Iterator

unfoldable pub increment_const : ConstIterator → ConstIterator
increment_const it = record { m_iterator = increment it.m_iterator }

unfoldable pub increment_postfix_const : ConstIterator → ConstIterator × ConstIterator
increment_postfix_const it =
    let (moved, old) = increment_postfix it.m_iterator in
    (record { m_iterator = moved }, record { m_iterator = old })

unfoldable pub decrement_const : ConstIterator → ConstIterator
decrement_const it = record { m_iterator = decrement it.m_iterator }

unfoldable pub plus_const : ConstIterator → ℤ → ConstIterator
plus_const it n = record { m_iterator = plus it.m_iterator n }

unfoldable pub minus_const : ConstIterator → ℤ → ConstIterator
minus_const it n = record { m_iterator = minus it.m_iterator n }

unfoldable pub subscript_const : ConstIterator → ℤ → ConstReference
subscript_const it n = record { m_reference = subscript it.m_iterator n }

unfoldable pub dereference_const : ConstIterator → ConstReference
dereference_const it = record { m_reference = dereference it.m_iterator }

unfoldable pub is_same_const : ConstIterator → ConstIterator → Bool
is_same_const it other = is_same it.m_iterator other.m_iterator

unfoldable pub decrement_postfix_const : ConstIterator → ConstIterator × ConstIterator
decrement_postfix_const it =
    let (moved, old) = decrement_postfix it.m_iterator in
    (record { m_iterator = moved }, record { m_iterator = old })

unfoldable pub plus_assign_const : ℤ → ConstIterator → ConstIterator
plus_assign_const n it = record { m_iterator = plus_assign n it.m_iterator }

unfoldable pub minus_assign_const : ℤ → ConstIterator → ConstIterator
minus_assign_const n it = record { m_iterator = minus_assign n it.m_iterator }

unfoldable pub is_set_const : ConstIterator → Bool
is_set_const it = is_set it.m_iterator

unfoldable pub is_less_const : ConstIterator → ConstIterator → Bool
is_less_const it other = is_less it.m_iterator other.m_iterator

unfoldable pub is_less_equal_const : ConstIterator → ConstIterator → Bool
is_less_equal_const it other = is_less_equal it.m_iterator other.m_iterator

unfoldable pub is_greater_const : ConstIterator → ConstIterator → Bool
is_greater_const it other = is_greater it.m_iterator other.m_iterator

unfoldable pub is_greater_equal_const : ConstIterator → ConstIterator → Bool
is_greater_equal_const it other = is_greater_equal it.m_iterator other.m_iterator

unfoldable pub is_other_const : ConstIterator → ConstIterator → Bool
is_other_const it other = is_other it.m_iterator other.m_iterator
