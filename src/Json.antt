-- ===== src/Json.antt =====
-- src/logic/printer/json.cpp: the text that is made of the rows of a UVM printer. A string is the list
-- of its characters' codes, and a row iterator is the list of the rows from it on. `std::stoi` is a
-- parameter; `none` is its exception, or an overflow of `int`.
pub mod Total
pub mod Tree
pub mod Levels
pub mod Turn
pub mod Render
use Prim.Native.Nat.{suc}
use mathlib.Core.List.{reverse}
use logic.Base.{
  ℕ, zero, ◌+◌, ◌-◌, ◌/◌, ◌^◌, Bool, true, false, ◌&&◌, ◌||◌, Option, none, some, List, [], ◌∷◌,
  ◌++◌, if◌then◌else◌, ◌==◌, ltb, leb, ◌>>=◌, length, drop,
}
use logic.Base.Int.{ℤ, pos, negsuc}
use logic.CommandLine.{starts}

-- `uvm_printer_row_info`
pub record Row : Type 0 where
  pub level : ℕ
  pub name : List ℕ
  pub type_name : List ℕ
  pub size : List ℕ
  pub val : List ℕ

-- `type_t`
pub data Kind : Type 0 where
  object array : Kind

-- `==` of strings.
unfoldable pub same : List ℕ → List ℕ → Bool
same [] [] = true
same [] (d ∷ t) = false
same (c ∷ s) [] = false
same (c ∷ s) (d ∷ t) = let rest = same s t in if c == d then rest else false

-- "0x", "0b", "array", "std::vector", "std::array", "double" and "int"
abbrev pub hex_prefix : List ℕ
hex_prefix = b'0' ∷ b'x' ∷ []

abbrev pub bin_prefix : List ℕ
bin_prefix = b'0' ∷ b'b' ∷ []

abbrev pub array_name : List ℕ
array_name = b'a' ∷ b'r' ∷ b'r' ∷ b'a' ∷ b'y' ∷ []

abbrev pub std_prefix : List ℕ
std_prefix = b's' ∷ b't' ∷ b'd' ∷ b':' ∷ b':' ∷ []

abbrev pub vector_name : List ℕ
vector_name = b'v' ∷ b'e' ∷ b'c' ∷ b't' ∷ b'o' ∷ b'r' ∷ []

abbrev pub double_name : List ℕ
double_name = b'd' ∷ b'o' ∷ b'u' ∷ b'b' ∷ b'l' ∷ b'e' ∷ []

abbrev pub int_name : List ℕ
int_name = b'i' ∷ b'n' ∷ b't' ∷ []

abbrev pub quote : ℕ
quote = b'"'

abbrev pub newline : ℕ
newline = 10

unfoldable pub is_hex : Row → Bool
is_hex row = starts hex_prefix row.val

unfoldable pub is_bin : Row → Bool
is_bin row = starts bin_prefix row.val

unfoldable pub is_array : Row → Bool
is_array row =
    same array_name row.type_name
    || starts (std_prefix ++ vector_name) row.type_name
    || starts (std_prefix ++ array_name) row.type_name

unfoldable pub is_double : Row → Bool
is_double row = same row.type_name double_name

unfoldable pub is_int : Row → Bool
is_int row = same row.type_name int_name

-- `is_container`: the row after this one is deeper.
unfoldable pub is_container : Row → List Row → Bool
is_container row [] = false
is_container row (next ∷ rest) = ltb row.level next.level

-- `print_indent(level)` for a level of at least -1, by `level + 1`.
unfoldable pub print_indent : ℕ → List ℕ
print_indent zero = []
print_indent (suc times) = b' ' ∷ b' ' ∷ b' ' ∷ b' ' ∷ print_indent times

unfoldable pub opening : Kind → ℕ
opening object = b'{'
opening array = b'['

unfoldable pub closing : Kind → ℕ
closing object = b'}'
closing array = b']'

-- The name of an entry; an array has none.
unfoldable pub key : Kind → Row → List ℕ
key array row = []
key object row = quote ∷ row.name ++ quote ∷ b':' ∷ b' ' ∷ []

-- `std::string::resize(size, '0')`
unfoldable pub resize : ℕ → List ℕ → List ℕ
resize zero s = []
resize (suc n) [] = b'0' ∷ resize n []
resize (suc n) (c ∷ s) = c ∷ resize n s

-- The last `size` digits, with zeros before them: `std::reverse`, `resize` and `std::reverse`.
unfoldable pub digits : ℕ → List ℕ → List ℕ
digits size s = reverse (resize size (reverse s))

-- `if (size < 1) size = 1;`
unfoldable pub at_least_one : ℤ → ℕ
at_least_one (pos zero) = 1
at_least_one (pos (suc n)) = suc n
at_least_one (negsuc n) = 1

unfoldable pub level_of : List Row → ℕ
level_of [] = 0
level_of (row ∷ rows) = row.level

unfoldable pub kind_of : Row → Kind
kind_of row = if is_array row then array else object

-- `(m_row != m_row_end) && (m_row->level >= level)`
unfoldable pub goes_on : ℕ → List Row → Bool
goes_on level [] = false
goes_on level (row ∷ rows) = leb level row.level

-- What follows an entry: a comma, or a line end before the closing bracket.
unfoldable pub separator : ℕ → List Row → List ℕ
separator level rows = if goes_on level rows then b',' ∷ [] else newline ∷ print_indent level

unfoldable pub hex_text : ℕ → Row → Option (List ℕ)
hex_text size row =
    if ltb (size + 3) (2 ^ 31)
    then some (quote ∷ hex_prefix ++ digits ((size + 3) / 4) (drop 2 row.val) ++ quote ∷ [])
    else none

-- The text between the brackets of an object or an array, with them.
abbrev pub enclosed : Kind → List ℕ → List ℕ
enclosed type body = opening type ∷ body ++ closing type ∷ []

-- The text of one entry, before the rows that are left and the text of those.
abbrev pub entry : Kind → ℕ → Row → List ℕ → List Row → List ℕ → List ℕ
entry type level row value rows more =
    newline ∷ print_indent (suc level)
    ++ (key type row ++ (value ++ (separator level rows ++ more)))

module _ (stoi : List ℕ → Option ℤ) where
  -- The value of a row that is no container.
  unfoldable pub hex_value : Row → Option (List ℕ)
  hex_value row = do number ← stoi row.size; hex_text (at_least_one number) row

  unfoldable pub bin_value : Row → Option (List ℕ)
  bin_value row = do
    number ← stoi row.size
    some (quote ∷ bin_prefix ++ digits (at_least_one number) (drop 2 row.val) ++ quote ∷ [])

  unfoldable pub scalar : Row → Option (List ℕ)
  scalar row =
      if is_double row
      then some row.val
      else if is_int row
      then (if is_hex row
          then hex_value row
          else if is_bin row
          then bin_value row
          else some row.val)
      else some (quote ∷ row.val ++ quote ∷ [])

  -- The loop of `print`, with fuel: the text and the rows that are left.
  unfoldable pub print_rows : ℕ → Kind → ℕ → List Row → Option (List ℕ × List Row)
  print_rows zero type level rows = none
  print_rows (suc fuel) type level [] = some ([], [])
  print_rows (suc fuel) type level (row ∷ rest) =
      let nested = (do
        (body, rows) ← print_rows fuel (kind_of row) (level_of rest) rest
        some (enclosed (kind_of row) body, rows)) in
      let printed = (do
        (value, rows) ←
            if is_container row rest then nested else (do value ← scalar row; some (value, rest))
        (more, left) ← print_rows fuel type level rows
        some (entry type level row value rows more, left)) in
      if leb level row.level then printed else some ([], row ∷ rest)

  -- `print(type)`
  unfoldable pub print : ℕ → Kind → List Row → Option (List ℕ × List Row)
  print fuel type rows = do
    (body, left) ← print_rows fuel type (level_of rows) rows
    some (enclosed type body, left)

  -- `emit`; a turn of the loop takes a row, so the fuel is one more than there are.
  unfoldable pub emit : List Row → Option (List ℕ)
  emit rows = do (text, left) ← print (suc (length rows)) object rows; some (text ++ newline ∷ [])
