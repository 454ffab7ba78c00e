-- ===== src/Tests/Ranges.antt =====
-- Ranges (src/logic/range.cpp) and a configuration database that keeps them.
use logic.Base.{
  ℕ, ◌↔◌, ◌⊎◌, ◌≤◌, ◌≡◌, ◌≢◌, refl, true, Option, none, some, arith, Bool-cases, inl, inr,
  if◌then◌else◌,
}
use text.Mathlib.Text.{◌==◌}
use text.Mathlib.TextEquality.{eq_iff}
use Prim.Native.String.{String}
use logic.Range.{
  Range, default_range, of_value, of_bounds, set_value, IsOrdered, Contains, range-Contains,
}
use logic.Range.Config.{ConfigDb, set_range, get_range, get_range-set_range}

abbrev small : Range
small = record { m_min = 2; m_max = 5 }

abbrev four : ℕ
four = 4

range-Contains_example :
    (Contains default_range four ↔ (four ≡ 0))
    × (Contains (of_value 3) four ↔ (four ≡ 3))
    × (Contains (set_value 3 small) four ↔ (four ≡ 3))
    × (Contains (of_bounds 3 6) four ↔ (3 ≤ four) × ((four ≤ 6) ⊎ (four ≡ 3)))
    × IsOrdered default_range
    × IsOrdered (of_value 3)
    × IsOrdered (set_value 3 small)
    × IsOrdered (of_bounds 3 6)
range-Contains_example = range-Contains 3 6 four small

-- A database that is a function from field names.
abbrev Fields : Type 0
Fields = String → Option ℕ

abbrev set_field : Fields → String → ℕ → Fields
set_field s f v g = if f == g then some v else s g

set_field_self : (s : Fields) (f : String) (v : ℕ) → set_field s f v f ≡ some v
set_field_self s f v = rw ((eq_iff f f).1 refl) refl

set_field_ne : (s : Fields) (f g : String) (v : ℕ) → f ≢ g → set_field s f v g ≡ s g
set_field_ne s f g v ne = elim (Bool-cases (f == g)) [
  | inl h ↦ absurd (ne ((eq_iff f g).0 h))
  | inr h ↦ rw h refl
]

abbrev field_db : ConfigDb
field_db = record {
  State = Fields;
  set = set_field;
  get = λ s f. s f;
  get-set_self = set_field_self;
  get-set_ne = set_field_ne;
}

abbrev unset : Fields
unset f = none

get_range-set_range_example :
    get_range field_db (set_range field_db unset "length" small) "length" default_range
    ≡ (true, small)
get_range-set_range_example =
    get_range-set_range field_db unset "length" small default_range (omega arith) refl
