-- ===== src/Json/Render.antt =====
-- `print` of src/logic/printer/json.cpp against the text of the tree that the rows stand for.
use logic.Base.{
  ℕ, zero, suc, ◌<◌, ◌≤◌, ◌≡◌, refl, sym, ap, ◌∙◌, false, Option, none, some, List, [], ◌∷◌, ◌++◌,
  arith, length, ◌>>=◌,
}
use mathlib.Core.List.{append_assoc, append-nil}
use logic.Base.Int.{ℤ}
use logic.Json.{
  Row, Kind, object, enclosed, newline, print_rows, print, emit, level_of, kind_of, goes_on,
}
use logic.Json.Tree.{
  Node, Nodes, leaf, branch, last, next, at_level, row_of, node_rows, nodes_rows, in_brackets,
  line_end, node_text, nodes_text,
}
use logic.Json.Levels.{goes_on-nodes, goes_on-suc, length-nodes, length-node}
use logic.Json.Turn.{enclosed_lem, with_value, returned, leaf_lem, branch_lem, last_text, next_text}

module _ (stoi : List ℕ → Option ℤ) where
  mutual
    unfolding node_rows nodes_rows nodes_text node_text

    node_lem :
        (fuel : ℕ) (type : Kind) (level : ℕ) (node : Node) (after : List Row)
        → goes_on (suc level) after ≡ false
        → length (node_rows level node ++ after) ≤ fuel
        → print_rows stoi (suc fuel) type level (node_rows level node ++ after)
          ≡ with_value stoi fuel type level
              (at_level level (row_of node))
              after
              (node_text stoi level node)
    node_lem fuel type level (leaf row) after h k = leaf_lem stoi fuel type level row after h
    node_lem fuel type level (branch row below) after h k =
        branch_lem stoi fuel type level row below after
          (nodes_lem fuel (kind_of row) (suc level) below after h (omega arith))

    nodes_lem :
        (fuel : ℕ) (type : Kind) (level : ℕ) (nodes : Nodes) (after : List Row)
        → goes_on level after ≡ false
        → length (nodes_rows level nodes ++ after) < fuel
        → print_rows stoi fuel type level (nodes_rows level nodes ++ after)
          ≡ (nodes_text stoi type level nodes >>= returned stoi after)
    nodes_lem zero type level nodes after h k = absurd (omega arith)
    nodes_lem (suc zero) type level nodes after h k =
        absurd (omega (arith, k, length-nodes level nodes after))
    nodes_lem (suc (suc fuel)) type level (last node) after h k =
        node_lem (suc fuel) type level node after (goes_on-suc level after h) (omega arith)
        ∙ last_text stoi fuel type level (row_of node) after h (node_text stoi level node)
    nodes_lem (suc (suc fuel)) type level (next node others) after h k =
        let (on, stop, first) = goes_on-nodes level others after in
        ap (print_rows stoi (suc (suc fuel)) type level)
          (append_assoc (node_rows level node) (nodes_rows level others) after)
        ∙ node_lem (suc fuel) type level node (nodes_rows level others ++ after) stop (
            omega (
              arith,
              k,
              ap length (append_assoc (node_rows level node) (nodes_rows level others) after),
            ))
        ∙ next_text stoi (suc fuel) type level (row_of node) (nodes_rows level others ++ after)
            after on (nodes_text stoi type level others)
            (nodes_lem (suc fuel) type level others after h (
              omega (
                arith,
                k,
                ap length (append_assoc (node_rows level node) (nodes_rows level others) after),
                length-node level node (nodes_rows level others ++ after),
              )))
            (node_text stoi level node)

  -- For rows that list a tree, each row one level below that of the object or array that it
  -- belongs to, `emit` gives the text of the tree by recursion: the brackets of an object around
  -- the entries of its top level, each on a line of its own indented by its depth, with its name
  -- unless it is in an array, a nested object or array in brackets of its kind, and a comma after
  -- every entry but the last of its object or array; and it fails exactly when the value of some
  -- leaf does.
  pub emit-nodes :
      (nodes : Nodes)
      → emit stoi (nodes_rows 0 nodes) ≡ (do
        body ← nodes_text stoi object 0 nodes
        some (in_brackets object body ++ line_end ∷ []))
  unfolding emit print
  emit-nodes nodes = rw (first, whole) (closed (nodes_text stoi object 0 nodes))
    where
      first : level_of (nodes_rows 0 nodes) ≡ 0
      first = ap level_of (sym (append-nil (nodes_rows 0 nodes))) ∙ (goes_on-nodes 0 nodes []).2

      whole :
          print_rows stoi (suc (length (nodes_rows 0 nodes))) object 0 (nodes_rows 0 nodes)
          ≡ (nodes_text stoi object 0 nodes >>= returned stoi [])
      whole =
          ap (print_rows stoi (suc (length (nodes_rows 0 nodes))) object 0)
            (sym (append-nil (nodes_rows 0 nodes)))
          ∙ nodes_lem (suc (length (nodes_rows 0 nodes))) object 0 nodes [] (unfold goes_on in refl)
              (omega (arith, ap length (append-nil (nodes_rows 0 nodes))))

      printed : List ℕ × List Row → Option (List ℕ × List Row)
      printed result = some (enclosed object result.0, result.1)

      emitted : List ℕ × List Row → Option (List ℕ)
      emitted result = some (result.0 ++ newline ∷ [])

      closed :
          (body : Option (List ℕ))
          → (body >>= returned stoi [] >>= printed >>= emitted)
            ≡ (body >>= λ text. some (in_brackets object text ++ line_end ∷ []))
      closed none = refl
      closed (some text) = ap (λ (t : List ℕ). emitted (t, [])) (enclosed_lem object text)
