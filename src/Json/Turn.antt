-- ===== src/Json/Turn.antt =====
-- One turn of the loop of `print` in src/logic/printer/json.cpp, on a leaf and on a branch.
use logic.Base.{
  ℕ, zero, suc, ◌≡◌, replicate, ◌*◌, refl, ap, ◌∙◌, true, false, Option, none, some, List, [], ◌∷◌,
  ◌++◌, arith, leb, ◌>>=◌,
}
use mathlib.Core.List.{append-nil}
use logic.Base.Int.{ℤ}
use logic.Json.{
  Row, Kind, object, array, opening, closing, enclosed, entry, key, separator, newline,
  print_indent, is_array, scalar, print_rows, kind_of, goes_on,
}
use logic.Json.Tree.{
  Nodes, branch, at_level, nodes_rows, in_brackets, named, spaces, line_end, line, node_text,
  nodes_text,
}
use logic.Json.Levels.{goes_on-nodes, is_container_lem}

-- The brackets, names and spaces that are printed.
pub enclosed_lem : (type : Kind) (body : List ℕ) → enclosed type body ≡ in_brackets type body
unfolding opening closing
enclosed_lem object body = refl
enclosed_lem array body = refl

key_lem :
    (type : Kind) (level : ℕ) (row : Row) → key type (at_level level row) ≡ named type row.name
unfolding key
key_lem object level row = refl
key_lem array level row = refl

print_indent_lem : (level : ℕ) → print_indent level ≡ spaces level
unfolding print_indent
print_indent_lem zero = refl
print_indent_lem (suc level) =
    ap (λ s. b' ' ∷ b' ' ∷ b' ' ∷ b' ' ∷ s) (print_indent_lem level) ∙ ap blanks (more level)
  where
    blanks : ℕ → List ℕ
    blanks n = replicate n b' '

    more : (level : ℕ) → suc (suc (suc (suc (4 * level)))) ≡ 4 * suc level
    more level = omega arith

leb_self : (level : ℕ) → leb level level ≡ true
leb_self level = ground arith

module _ (stoi : List ℕ → Option ℤ) where
  -- What the loop returns when the value of its first row is known.
  abbrev pub with_value :
      ℕ → Kind → ℕ → Row → List Row → Option (List ℕ) → Option (List ℕ × List Row)
  with_value fuel type level row after value = do
    text ← value
    (more, left) ← print_rows stoi fuel type level after
    some (entry type level row text after more, left)

  abbrev pub returned : List Row → List ℕ → Option (List ℕ × List Row)
  returned after text = some (text, after)

  -- The rest of the turn after the value.
  abbrev finish : ℕ → Kind → ℕ → Row → List ℕ × List Row → Option (List ℕ × List Row)
  finish fuel type level row result = do
    (more, left) ← print_rows stoi fuel type level result.1
    some (entry type level row result.0 result.1 more, left)

  pub leaf_lem :
      (fuel : ℕ) (type : Kind) (level : ℕ) (row : Row) (after : List Row)
      → goes_on (suc level) after ≡ false
      → print_rows stoi (suc fuel) type level (at_level level row ∷ after)
        ≡ with_value fuel type level (at_level level row) after (scalar stoi (at_level level row))
  unfolding print_rows
  leaf_lem fuel type level row after h =
      rw (leb_self level, is_container_lem level row after, h)
        (assoc (scalar stoi (at_level level row)))
    where
      assoc :
          (value : Option (List ℕ))
          → (value >>= returned after >>= finish fuel type level (at_level level row))
            ≡ with_value fuel type level (at_level level row) after value
      assoc none = refl
      assoc (some text) = refl

  pub branch_lem :
      (fuel : ℕ) (type : Kind) (level : ℕ) (row : Row) (below : Nodes) (after : List Row)
      → print_rows stoi fuel (kind_of row) (suc level) (nodes_rows (suc level) below ++ after)
        ≡ (nodes_text stoi (kind_of row) (suc level) below >>= returned after)
      → print_rows stoi
          (suc fuel)
          type
          level
          (at_level level row ∷ nodes_rows (suc level) below ++ after)
        ≡ with_value fuel type level
            (at_level level row)
            after
            (node_text stoi level (branch row below))
  unfolding print_rows node_text
  branch_lem fuel type level row below after h =
      let (on, stop, first) = goes_on-nodes (suc level) below after in
      rw
        (
          leb_self level,
          is_container_lem level row (nodes_rows (suc level) below ++ after),
          on,
          first,
          same_kind,
          h,
        )
        (assoc (nodes_text stoi (kind_of row) (suc level) below))
    where
      same_kind : kind_of (at_level level row) ≡ kind_of row
      same_kind = unfold kind_of in unfold is_array in refl

      assoc :
          (text : Option (List ℕ))
          → (text
              >>= returned after
              >>= (λ result. returned result.1 (enclosed (kind_of row) result.0))
              >>= finish fuel type level (at_level level row))
            ≡ with_value fuel type level
                (at_level level row)
                after
                (text >>= λ body. some (in_brackets (kind_of row) body))
      assoc none = refl
      assoc (some body) =
          ap (λ (t : List ℕ). finish fuel type level (at_level level row) (t, after))
            (enclosed_lem (kind_of row) body)

  -- After the last node, the loop ends.
  ended :
      (fuel : ℕ) (type : Kind) (level : ℕ) (after : List Row)
      → goes_on level after ≡ false
      → print_rows stoi (suc fuel) type level after ≡ some ([], after)
  unfolding print_rows goes_on
  ended fuel type level [] h = refl
  ended fuel type level (row ∷ rest) h = rw h refl

  separator-last :
      (level : ℕ) (after : List Row)
      → goes_on level after ≡ false
      → separator level after ≡ newline ∷ print_indent level
  unfolding separator
  separator-last level after h = rw h refl

  separator-next :
      (level : ℕ) (after : List Row)
      → goes_on level after ≡ true
      → separator level after ≡ b',' ∷ []
  unfolding separator
  separator-next level after h = rw h refl

  pub last_text :
      (fuel : ℕ) (type : Kind) (level : ℕ) (row : Row) (after : List Row)
      → goes_on level after ≡ false
      → (value : Option (List ℕ))
      → with_value (suc fuel) type level (at_level level row) after value ≡ (
          value
          >>= (λ text. some (line type level row text (line_end ∷ spaces level)))
          >>= returned after)
  last_text fuel type level row after h none = refl
  last_text fuel type level row after h (some text) =
      rw
        (
          ended fuel type level after h,
          separator-last level after h,
          key_lem type level row,
          append-nil (newline ∷ print_indent level),
          print_indent_lem (suc level),
          print_indent_lem level,
        )
        refl

  pub next_text :
      (fuel : ℕ) (type : Kind) (level : ℕ) (row : Row) (rest after : List Row)
      → goes_on level rest ≡ true
      → (others : Option (List ℕ))
      → print_rows stoi fuel type level rest ≡ (others >>= returned after)
      → (value : Option (List ℕ))
      → with_value fuel type level (at_level level row) rest value ≡ (
          (do text ← value; more ← others; some (line type level row text (b',' ∷ more)))
          >>= returned after)
  next_text fuel type level row rest after h others e none = refl
  next_text fuel type level row rest after h none e (some text) = rw e refl
  next_text fuel type level row rest after h (some more) e (some text) =
      rw (e, separator-next level rest h, key_lem type level row, print_indent_lem (suc level)) refl
