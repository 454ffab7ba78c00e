-- ===== src/Json/Tree.antt =====
-- What a UVM printer's rows stand for: objects and arrays inside one another, each row one level deeper
-- than the row of what it belongs to. The JSON text of such a tree, by recursion on it.
use logic.Base.{ℕ, suc, ◌*◌, replicate, Option, some, List, [], ◌∷◌, ◌++◌, ◌>>=◌}
use logic.Base.Int.{ℤ}
use logic.Json.{Row, Kind, object, array, kind_of, scalar}

-- Nodes are never empty: a row with nothing below it is a leaf.
mutual
  pub data Node : Type 0 where
    leaf : Row → Node
    branch : Row → Nodes → Node

  pub data Nodes : Type 0 where
    last : Node → Nodes
    next : Node → Nodes → Nodes

abbrev pub at_level : ℕ → Row → Row
at_level level row = record row { level = level }

abbrev pub row_of : Node → Row
row_of (leaf row) = row
row_of (branch row below) = row

unfoldable mutual
  pub node_rows : ℕ → Node → List Row
  node_rows level (leaf row) = at_level level row ∷ []
  node_rows level (branch row below) = at_level level row ∷ nodes_rows (suc level) below

  pub nodes_rows : ℕ → Nodes → List Row
  nodes_rows level (last node) = node_rows level node
  nodes_rows level (next node others) = node_rows level node ++ nodes_rows level others

-- The text of an object or array around its entries, the name of an entry, and the space before it.
abbrev pub in_brackets : Kind → List ℕ → List ℕ
in_brackets object body = b'{' ∷ body ++ b'}' ∷ []
in_brackets array body = b'[' ∷ body ++ b']' ∷ []

abbrev pub named : Kind → List ℕ → List ℕ
named object name = b'"' ∷ name ++ b'"' ∷ b':' ∷ b' ' ∷ []
named array name = []

abbrev pub spaces : ℕ → List ℕ
spaces level = replicate (4 * level) b' '

abbrev pub line_end : ℕ
line_end = 10

-- An entry on a line of its own.
abbrev pub line : Kind → ℕ → Row → List ℕ → List ℕ → List ℕ
line type level row value after =
    line_end ∷ spaces (suc level) ++ (named type row.name ++ (value ++ after))

module _ (stoi : List ℕ → Option ℤ) where
  unfoldable mutual
    pub node_text : ℕ → Node → Option (List ℕ)
    node_text level (leaf row) = scalar stoi (at_level level row)
    node_text level (branch row below) = do
      body ← nodes_text (kind_of row) (suc level) below
      some (in_brackets (kind_of row) body)

    -- The entries between the brackets: a comma after each but the last.
    pub nodes_text : Kind → ℕ → Nodes → Option (List ℕ)
    nodes_text type level (last node) = do
      value ← node_text level node
      some (line type level (row_of node) value (line_end ∷ spaces level))
    nodes_text type level (next node others) = do
      value ← node_text level node
      more ← nodes_text type level others
      some (line type level (row_of node) value (b',' ∷ more))
