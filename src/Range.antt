-- ===== src/Range.antt =====
-- src/logic/range.cpp: an inclusive range of sizes, and how it is kept in the UVM configuration
-- database. The database (`uvm_config_db<size_type>`) is a parameter.
pub mod Config
use logic.Base.{
  ℕ, ◌≤◌, ◌≡◌, refl, Bool, true, not, ◌&&◌, ◌||◌, ◌↔◌, ◌⊎◌, arith, ltb, ◌==◌, if◌then◌else◌,
}

pub record Range : Type 0 where
  pub m_min : ℕ
  pub m_max : ℕ

-- The constructors, and `operator=(size_type)`.
abbrev pub default_range : Range
default_range = record { m_min = 0; m_max = 0 }

unfoldable pub of_value : ℕ → Range
of_value value = record { m_min = value; m_max = value }

unfoldable pub of_bounds : ℕ → ℕ → Range
of_bounds lhs rhs = record { m_min = lhs; m_max = if ltb lhs rhs then rhs else lhs }

unfoldable pub set_value : ℕ → Range → Range
set_value value r = record r { m_min = value; m_max = value }

unfoldable pub is_set : Range → Bool
is_set r = not (r.m_min == 0) || not (r.m_max == 0)

unfoldable pub is_unset : Range → Bool
is_unset r = r.m_min == 0 && r.m_max == 0

unfoldable pub is_equal : Range → Range → Bool
is_equal r other = r.m_min == other.m_min && r.m_max == other.m_max

unfoldable pub is_not_equal : Range → Range → Bool
is_not_equal r other = not (r.m_min == other.m_min) || not (r.m_max == other.m_max)

abbrev pub IsOrdered : Range → Type 0
IsOrdered r = r.m_min ≤ r.m_max

-- What lies in a range.
abbrev pub Contains : Range → ℕ → Type 0
Contains r x = (r.m_min ≤ x) × (x ≤ r.m_max)

-- The default range contains 0 alone, a range that is made of or assigned a value contains that
-- value alone, and a range of two bounds contains the numbers from the first to the second, or the
-- first alone when it is the larger one; so every way to make or assign a range gives an ordered
-- one.
pub range-Contains :
    (a b x : ℕ) (r : Range)
    → (Contains default_range x ↔ (x ≡ 0))
      × (Contains (of_value a) x ↔ (x ≡ a))
      × (Contains (set_value a r) x ↔ (x ≡ a))
      × (Contains (of_bounds a b) x ↔ (a ≤ x) × ((x ≤ b) ⊎ (x ≡ a)))
      × IsOrdered default_range
      × IsOrdered (of_value a)
      × IsOrdered (set_value a r)
      × IsOrdered (of_bounds a b)
unfolding of_value of_bounds set_value
range-Contains a b x r = (
  ground arith,
  ground arith,
  ground arith,
  ground arith,
  ground arith,
  ground arith,
  ground arith,
  ground arith,
)

-- `==` of ranges decides equality, `!=` and `!` are the opposites of `==` and of the Boolean value,
-- and `!` holds of the default range alone.
pub range_tests :
    (r other : Range)
    → ((is_equal r other ≡ true) ↔ (r ≡ other))
      × (is_not_equal r other ≡ not (is_equal r other))
      × (is_unset r ≡ not (is_set r))
      × ((is_unset r ≡ true) ↔ (r ≡ default_range))
unfolding is_equal is_not_equal is_unset is_set
range_tests r other = (ground arith, ground arith, ground arith, ground arith)
