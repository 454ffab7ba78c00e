-- ===== src/CommandLine/Split.antt =====
-- `split_3` of src/logic/command_line.cpp against joining with commas.
use logic.Base.{
  ℕ, suc, ◌+◌, ◌-◌, ◌≡◌, refl, sym, subst, ap, ap₂, ◌∙◌, false, Option, none, some, List, [], ◌∷◌,
  ◌++◌, arith, ◌==◌, length, drop, take, All, ◌↔◌, ◌⊎◌, ==_iff, Bool-cases, inl, inr,
}
use logic.CommandLine.{find_first, find_from, comma, split_3}

abbrev pub NoComma : List ℕ → Type 0
NoComma s = All (λ c. (c == comma) ≡ false) s

abbrev pub joined : List ℕ → List ℕ → List ℕ → List ℕ
joined a b c = a ++ (comma ∷ (b ++ (comma ∷ c)))

find_first-append :
    (a rest : List ℕ) → NoComma a → find_first comma (a ++ comma ∷ rest) ≡ some (length a)
unfolding find_first
find_first-append [] rest h = refl
find_first-append (x ∷ a) rest h = rw (h.0, find_first-append a rest h.1) (ap some (omega arith))

take-length : (a rest : List ℕ) → take (length a) (a ++ rest) ≡ a
take-length [] rest = refl
take-length (x ∷ a) rest = ap (λ r. x ∷ r) (take-length a rest)

-- After the first comma, and after the second.
drop_first : (a rest : List ℕ) → drop (length a + 1) (a ++ comma ∷ rest) ≡ rest
drop_first [] rest = refl
drop_first (x ∷ a) rest =
    ap (λ (t : ℕ). drop t (x ∷ a ++ comma ∷ rest)) (shifted (length a)) ∙ drop_first a rest
  where
    shifted : (n : ℕ) → suc n + 1 ≡ suc (n + 1)
    shifted n = omega arith

drop_second : (a b c : List ℕ) → drop (length a + 1 + length b + 1) (joined a b c) ≡ c
drop_second [] b c =
    ap (λ (t : ℕ). drop t (comma ∷ (b ++ (comma ∷ c)))) (shifted (length b)) ∙ drop_first b c
  where
    shifted : (n : ℕ) → 0 + 1 + n + 1 ≡ suc (n + 1)
    shifted n = omega arith
drop_second (x ∷ a) b c =
    ap (λ (t : ℕ). drop t (x ∷ joined a b c)) (shifted (length a) (length b)) ∙ drop_second a b c
  where
    shifted : (m n : ℕ) → suc m + 1 + n + 1 ≡ suc (m + 1 + n + 1)
    shifted m n = omega arith

find_from_lem :
    (s : List ℕ) (pos i : ℕ)
    → find_first comma (drop pos s) ≡ some i
    → find_from comma s pos ≡ some (pos + i)
unfolding find_from
find_from_lem s pos i e = rw e refl

find_from-none :
    (s : List ℕ) (pos : ℕ) → find_first comma (drop pos s) ≡ none → find_from comma s pos ≡ none
unfolding find_from
find_from-none s pos e = rw e refl

find_second :
    (a b c : List ℕ)
    → NoComma a
    → NoComma b
    → (find_from comma (joined a b c) 0 ≡ some (length a))
      × (find_from comma (joined a b c) (length a + 1) ≡ some (length a + 1 + length b))
find_second a b c h k = (
  find_from_lem (joined a b c) 0 (length a) (find_first-append a (b ++ comma ∷ c) h)
      ∙ ap some (from_zero (length a)),
  find_from_lem (joined a b c) (length a + 1) (length b)
      (ap (find_first comma) (drop_first a (b ++ comma ∷ c)) ∙ find_first-append b c k),
)
  where
    from_zero : (n : ℕ) → 0 + n ≡ n
    from_zero n = omega arith

triple :
    (x x' y y' z z' : List ℕ)
    → x ≡ x'
    → y ≡ y'
    → z ≡ z'
    → ◌≡◌ {A = Option (List ℕ × List ℕ × List ℕ)} (some (x, y, z)) (some (x', y', z'))
triple x x' y y' z z' p q r = rw (p, q, r) refl

split_3-joined : (a b c : List ℕ) → NoComma a → NoComma b → split_3 (joined a b c) ≡ some (a, b, c)
unfolding split_3
split_3-joined a b c h k =
    let (first, second) = find_second a b c h k in
    rw (first, second)
      (triple _ _ _ _ _ _ (take-length a (comma ∷ (b ++ (comma ∷ c))))
        (ap₂ take (between (length a) (length b)) (drop_first a (b ++ comma ∷ c))
          ∙ take-length b (comma ∷ c))
        (drop_second a b c))
  where
    between : (m n : ℕ) → m + 1 + n - m - 1 ≡ n
    between m n = omega arith

-- Where the first comma is, if there is one.
first_comma :
    (s : List ℕ)
    → (find_first comma s ≡ none) ⊎ ((a rest : List ℕ) × NoComma a × (s ≡ a ++ comma ∷ rest))
unfolding find_first
first_comma [] = inl refl
first_comma (x ∷ s) = elim (Bool-cases (x == comma)) [
  | inl e ↦ inr ([], s, tt, ap (λ (t : ℕ). t ∷ s) ((==_iff x comma).0 e))
  | inr e ↦ elim (first_comma s) [
    | inl missing ↦ inl (rw (e, missing) refl)
    | inr (a, rest, h, same) ↦ inr (x ∷ a, rest, (e, h), ap (λ r. x ∷ r) same)
  ]
]

split_cases :
    (arg : List ℕ)
    → (split_3 arg ≡ none) ⊎ ((a b c : List ℕ) × NoComma a × NoComma b × (arg ≡ joined a b c))
unfolding split_3
split_cases arg = elim (first_comma arg) [
  | inl missing ↦ inl (rw (find_from-none arg 0 missing) refl)
  | inr (a, rest, h, same) ↦ elim (first_comma rest) [
    | inl missing ↦
        let first =
          find_from_lem arg 0 (length a)
            (ap (find_first comma) same ∙ find_first-append a rest h) in
        let second = find_from-none arg (0 + length a + 1) (
          ap (find_first comma) (ap₂ drop (one_on (length a)) same ∙ drop_first a rest)
          ∙ missing) in
        inl (rw (first, second) refl)
    | inr (b, c, k, same') ↦ inr (a, b, c, h, k, same ∙ ap (λ r. a ++ comma ∷ r) same')
  ]
]
  where
    one_on : (n : ℕ) → 0 + n + 1 ≡ n + 1
    one_on n = omega arith

abbrev Splits : List ℕ → Option (List ℕ × List ℕ × List ℕ) → Type 0
Splits arg none = Unit
Splits arg (some t) = NoComma t.0 × NoComma t.1 × (arg ≡ joined t.0 t.1 t.2)

-- `split_3` splits a text exactly when it is three texts joined with commas, of which the first two
-- have none, and then into these; it throws on every other text.
pub split_3_iff :
    (arg a b c : List ℕ)
    → (split_3 arg ≡ some (a, b, c)) ↔ (NoComma a) × (NoComma b) × (arg ≡ joined a b c)
split_3_iff arg a b c = (
  λ e. elim (split_cases arg) [
    | inl missing ↦ absurd (ground (arith, e, missing))
    | inr (a', b', c', h, k, same) ↦
        let split = sym (ap split_3 same ∙ split_3-joined a' b' c' h k) ∙ e in
        subst (Splits arg) split (h, k, same)
  ],
  λ h. ap split_3 h.2 ∙ split_3-joined a b c h.0 h.1,
)
