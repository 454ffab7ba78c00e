-- ===== src/Json/Total.antt =====
-- `emit` of src/logic/printer/json.cpp ends: the fuel is enough for any rows, and no row is left over
-- that is not above the first one.
use logic.Base.{
  ℕ, zero, suc, ◌≤◌, ◌<◌, ◌≡◌, refl, sym, ap, subst, ◌∙◌, true, false, Option, some, List, [], ◌∷◌,
  ◌++◌, arith, length, length-append, leb, All, Bool-cases, inl, inr,
}
use mathlib.Core.List.{append_assoc}
use logic.Base.Int.{ℤ}
use logic.Json.{
  Row, Kind, object, entry, enclosed, is_container, scalar, print_rows, print, emit, level_of,
  kind_of, goes_on,
}

All-suffix {ℓ κ} : {A : Type ℓ} (P : A → Type κ) (xs ys : List A) → All P (xs ++ ys) → All P ys
All-suffix P [] ys h = h
All-suffix P (x ∷ xs) ys h = All-suffix P xs ys h.1

module _ (stoi : List ℕ → Option ℤ) where
  -- The value of the row can be printed.
  abbrev pub HasValue : Row → Type 0
  HasValue row = (value : List ℕ) × (scalar stoi row ≡ some value)

  -- The loop returns, and stops at the first row that is above its level.
  record Prints (fuel : ℕ) (type : Kind) (level : ℕ) (rows : List Row) : Type 0 where
    text : List ℕ
    took : List Row
    left : List Row
    returns : print_rows stoi fuel type level rows ≡ some (text, left)
    parts : rows ≡ took ++ left
    stops : goes_on level left ≡ false

  abbrev PrintsBelow : ℕ → List Row → Type 0
  PrintsBelow fuel rest =
      (type : Kind) (level : ℕ) (rows : List Row)
      → All HasValue rows
      → length rows ≤ length rest
      → Prints fuel type level rows

  module _ (fuel : ℕ) (type : Kind) (level : ℕ) (row : Row) (rest : List Row)
      (has : All HasValue (row ∷ rest)) (below : PrintsBelow fuel rest) where
    container_row :
        leb level row.level ≡ true
        → is_container row rest ≡ true
        → Prints (suc fuel) type level (row ∷ rest)
    unfolding print_rows
    container_row here deeper =
        let nested = below (kind_of row) (level_of rest) rest has.1 (omega arith) in
        let more =
          below type level nested.left
            (All-suffix HasValue nested.took nested.left (subst (All HasValue) nested.parts has.1))
            (omega (arith, ap length nested.parts, length-append {0} nested.took nested.left)) in
        record {
          text = entry type level row (enclosed (kind_of row) nested.text) nested.left more.text;
          took = row ∷ nested.took ++ more.took;
          left = more.left;
          returns = rw (here, deeper, nested.returns, more.returns) refl;
          parts =
              ap (λ (rows : List Row). row ∷ rows)
                (nested.parts
                  ∙ ap (λ (rows : List Row). nested.took ++ rows) more.parts
                  ∙ sym (append_assoc nested.took more.took more.left));
          stops = more.stops;
        }

    scalar_row :
        leb level row.level ≡ true
        → is_container row rest ≡ false
        → Prints (suc fuel) type level (row ∷ rest)
    unfolding print_rows
    scalar_row here flat =
        let more = below type level rest has.1 (omega arith) in
        record {
          text = entry type level row has.0.0 rest more.text;
          took = row ∷ more.took;
          left = more.left;
          returns = rw (here, flat, has.0.1, more.returns) refl;
          parts = ap (λ (rows : List Row). row ∷ rows) more.parts;
          stops = more.stops;
        }

    any_row : Prints (suc fuel) type level (row ∷ rest)
    any_row = elim (Bool-cases (leb level row.level)) [
      | inr above ↦ record {
        text = [];
        took = [];
        left = row ∷ rest;
        returns = unfold print_rows in rw above refl;
        parts = refl;
        stops = unfold goes_on in above;
      }
      | inl here ↦ elim (Bool-cases (is_container row rest)) [
        | inl deeper ↦ container_row here deeper
        | inr flat ↦ scalar_row here flat
      ]
    ]

  print_rows-Prints :
      (fuel : ℕ) (type : Kind) (level : ℕ) (rows : List Row)
      → All HasValue rows
      → length rows < fuel
      → Prints fuel type level rows
  print_rows-Prints zero type level rows h k = absurd (omega arith)
  print_rows-Prints (suc fuel) type level [] h k = record {
    text = [];
    took = [];
    left = [];
    returns = unfold print_rows in refl;
    parts = refl;
    stops = unfold goes_on in refl;
  }
  print_rows-Prints (suc fuel) type level (row ∷ rest) h k =
      any_row fuel type level row rest h
        (λ type level rows has few. print_rows-Prints fuel type level rows has (omega arith))

  -- The first row that is above a level, or the end.
  abbrev pub EndsAbove : ℕ → List Row → Type 0
  EndsAbove level left = goes_on level left ≡ false

  -- For any rows whose values can be printed, whatever their levels, the fuel is enough: `emit`
  -- returns, its text ends with a line end, and the rows that it does not print are a last part
  -- of the rows that is empty or begins with one above the level of the first row.
  pub emit_returns :
      (rows : List Row)
      → All HasValue rows
      → (text : List ℕ) × (left : List Row) × (took : List Row) × (print stoi
            (suc (length rows))
            object
            rows
          ≡ some (text, left))
        × (emit stoi rows ≡ some (text ++ 10 ∷ []))
        × (rows ≡ took ++ left)
        × EndsAbove (level_of rows) left
  unfolding print emit
  emit_returns rows h =
      let all = print_rows-Prints (suc (length rows)) object (level_of rows) rows h (omega arith) in
      (
        enclosed object all.text,
        all.left,
        all.took,
        rw all.returns refl,
        rw all.returns refl,
        all.parts,
        all.stops,
      )
