-- ===== src/Json/Levels.antt =====
-- The levels of the rows of a tree, which say where the loop of src/logic/printer/json.cpp goes on.
use logic.Base.{
  ℕ, suc, ◌<◌, ◌≤◌, ◌≡◌, refl, ◌∙◌, true, false, List, [], ◌∷◌, ◌++◌, arith, length, length-append,
}
use mathlib.Core.List.{append_assoc}
use logic.Json.{Row, is_container, level_of, goes_on}
use logic.Json.Tree.{Node, Nodes, leaf, branch, last, next, at_level, row_of, node_rows, nodes_rows}

-- The first row of nodes at a level has that level.
node_rows-head :
    (level : ℕ) (node : Node) (after : List Row)
    → (rest : List Row) × (node_rows level node ++ after ≡ at_level level (row_of node) ∷ rest)
unfolding node_rows
node_rows-head level (leaf row) after = (after, refl)
node_rows-head level (branch row below) after = (nodes_rows (suc level) below ++ after, refl)

nodes_rows-head :
    (level : ℕ) (nodes : Nodes) (after : List Row)
    → (row : Row) × (rest : List Row) × (nodes_rows level nodes ++ after
        ≡ at_level level row ∷ rest)
unfolding nodes_rows
nodes_rows-head level (last node) after =
    let (rest, e) = node_rows-head level node after in (row_of node, rest, e)
nodes_rows-head level (next node others) after =
    let (rest, e) = node_rows-head level node (nodes_rows level others ++ after) in
    (row_of node, rest, append_assoc (node_rows level node) (nodes_rows level others) after ∙ e)

pub goes_on-nodes :
    (level : ℕ) (nodes : Nodes) (after : List Row)
    → (goes_on level (nodes_rows level nodes ++ after) ≡ true)
      × (goes_on (suc level) (nodes_rows level nodes ++ after) ≡ false)
      × (level_of (nodes_rows level nodes ++ after) ≡ level)
goes_on-nodes level nodes after =
    let (row, rest, e) = nodes_rows-head level nodes after in
    (rw e (here row rest), rw e (deeper row rest), rw e (first row rest))
  where
    here : (row : Row) (rest : List Row) → goes_on level (at_level level row ∷ rest) ≡ true
    here row rest = unfold goes_on in ground arith

    deeper : (row : Row) (rest : List Row) → goes_on (suc level) (at_level level row ∷ rest) ≡ false
    deeper row rest = unfold goes_on in ground arith

    first : (row : Row) (rest : List Row) → level_of (at_level level row ∷ rest) ≡ level
    first row rest = unfold level_of in refl

-- A row is a container exactly when the rows after it go on one level deeper.
pub is_container_lem :
    (level : ℕ) (row : Row) (rest : List Row)
    → is_container (at_level level row) rest ≡ goes_on (suc level) rest
unfolding is_container goes_on
is_container_lem level row [] = refl
is_container_lem level row (next_row ∷ rest) = ground arith

pub goes_on-suc :
    (level : ℕ) (rest : List Row) → goes_on level rest ≡ false → goes_on (suc level) rest ≡ false
unfolding goes_on
goes_on-suc level [] h = refl
goes_on-suc level (row ∷ rest) h = ground arith

pub length-nodes :
    (level : ℕ) (nodes : Nodes) (after : List Row) → 1 ≤ length (nodes_rows level nodes ++ after)
length-nodes level nodes after =
    let (row, rest, e) = nodes_rows-head level nodes after in rw e (omega arith)

pub length-node :
    (level : ℕ) (node : Node) (after : List Row)
    → length after < length (node_rows level node ++ after)
unfolding node_rows
length-node level (leaf row) after = omega arith
length-node level (branch row below) after =
    omega (arith, length-append {0} (nodes_rows (suc level) below) after)
