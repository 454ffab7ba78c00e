-- ===== src/Tests/Printed.antt =====
-- The JSON text of a few rows (src/logic/printer/json.cpp).
use logic.Base.{ℕ, suc, ◌≡◌, refl, Option, some, List, [], ◌∷◌, ◌++◌, ◌>>=◌, length}
use logic.Base.Int.{ℤ, pos}
use logic.Json.{
  Row, object, int_name, hex_prefix, print, emit, level_of, scalar, is_double, is_int, is_hex,
  is_bin, same, hex_value, hex_text, at_least_one, digits, resize,
}
use logic.CommandLine.{starts}
use logic.Json.Tree.{Nodes, leaf, branch, last, next, nodes_rows, nodes_text, in_brackets, line_end}
use logic.Json.Total.{EndsAbove, emit_returns}
use logic.Json.Render.{emit-nodes}

abbrev twelve_bits : List ℕ → Option ℤ
twelve_bits text = some (pos 12)

abbrev width_row : Row
width_row = record { level = 0; name = b'w' ∷ []; type_name = int_name; size = []; val = b'3' ∷ [] }

abbrev value_row : Row
value_row = record {
  level = 0;
  name = b'v' ∷ [];
  type_name = int_name;
  size = [];
  val = hex_prefix ++ b'7' ∷ [];
}

abbrev tid_row : Row
tid_row = record { level = 0; name = b't' ∷ []; type_name = []; size = []; val = [] }

abbrev tid_nodes : Nodes
tid_nodes = last (branch tid_row (next (leaf width_row) (last (leaf value_row))))

emit-nodes_example : emit twelve_bits (nodes_rows 0 tid_nodes) ≡ (do
  body ← nodes_text twelve_bits object 0 tid_nodes
  some (in_brackets object body ++ line_end ∷ []))
emit-nodes_example = emit-nodes twelve_bits tid_nodes

abbrev two_rows : List Row
two_rows = width_row ∷ value_row ∷ []

width_text : scalar twelve_bits width_row ≡ some (b'3' ∷ [])
unfolding scalar is_double is_int is_hex is_bin same starts
width_text = refl

-- Twelve bits are three digits.
value_text :
    scalar twelve_bits value_row ≡ some (b'"' ∷ hex_prefix ++ b'0' ∷ b'0' ∷ b'7' ∷ b'"' ∷ [])
unfolding scalar is_double is_int is_hex is_bin same starts hex_value hex_text at_least_one digits
    resize
value_text = refl

emit_returns_example :
    (text : List ℕ) × (left : List Row) × (took : List Row) × (print twelve_bits
        (suc (length two_rows))
        object
        two_rows
      ≡ some (text, left))
    × (emit twelve_bits two_rows ≡ some (text ++ 10 ∷ []))
    × (two_rows ≡ took ++ left)
    × EndsAbove twelve_bits (level_of two_rows) left
emit_returns_example = emit_returns twelve_bits two_rows ((_, width_text), ((_, value_text), tt))
