-- ===== src/Iterator/Laws.antt =====
-- Iterator arithmetic and order.
use logic.Base.{◌≡◌, refl, true, false, not, ◌↔◌, arith, ap}
use logic.Base.Int.{ℤ, pos, ◌+ℤ◌, ◌-ℤ◌}
use logic.Iterator.{
  Iterator, increment, increment_postfix, decrement, decrement_postfix, plus, minus, subscript,
  dereference, is_less, is_less_equal, is_greater, is_greater_equal, is_same, is_other,
}

cancel : (a n : ℤ) → (a +ℤ n) -ℤ n ≡ a
unfolding ◌+ℤ◌ ◌-ℤ◌
cancel a n = ground arith

cancel_back : (a n : ℤ) → (a -ℤ n) +ℤ n ≡ a
unfolding ◌+ℤ◌ ◌-ℤ◌
cancel_back a n = ground arith

-- Steps forth and back cancel, a postfix form returns the old iterator and moves as the prefix one
-- does, and `it[n]` is `*(it + n)`.
iterator_arithmetic :
    (it : Iterator) (n : ℤ)
    → (minus (plus it n) n ≡ it)
      × (plus (minus it n) n ≡ it)
      × (decrement (increment it) ≡ it)
      × (increment_postfix it ≡ (increment it, it))
      × (decrement_postfix it ≡ (decrement it, it))
      × (subscript it n ≡ dereference (plus it n))
unfolding increment increment_postfix decrement decrement_postfix plus minus subscript dereference
iterator_arithmetic it n = (
  ap (λ (i : ℤ). let r : Iterator = record { m_bits = it.m_bits; m_index = i } in r)
      (cancel it.m_index n),
  ap (λ (i : ℤ). let r : Iterator = record { m_bits = it.m_bits; m_index = i } in r)
      (cancel_back it.m_index n),
  ap (λ (i : ℤ). let r : Iterator = record { m_bits = it.m_bits; m_index = i } in r)
      (cancel it.m_index (pos 1)),
  refl,
  refl,
  refl,
)

-- The order tests of two iterators agree with each other, and they hold of the indices alone: the
-- iterators are equal exactly when the indices are, which is exactly when neither is less.
iterator_order :
    (a b : Iterator)
    → (is_less_equal a b ≡ not (is_greater a b))
      × (is_greater_equal a b ≡ not (is_less a b))
      × (is_other a b ≡ not (is_same a b))
      × (is_greater a b ≡ is_less b a)
      × ((is_same a b ≡ true) ↔ (a.m_index ≡ b.m_index))
      × ((is_less a b ≡ false) × (is_less b a ≡ false) ↔ (a.m_index ≡ b.m_index))
unfolding is_less is_less_equal is_greater is_greater_equal is_same is_other
iterator_order a b = (refl, refl, refl, refl, ground arith, ground arith)
