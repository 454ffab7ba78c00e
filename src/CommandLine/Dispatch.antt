-- ===== src/CommandLine/Dispatch.antt =====
-- Which callback of src/logic/command_line.cpp an argument reaches, and with which text.
use logic.Base.{
  ℕ, ◌≡◌, refl, sym, ap, ap₂, ◌∙◌, Bool, true, false, Option, none, some, List, [], ◌∷◌, ◌++◌,
  length, drop, All, if◌then◌else◌, ◌==◌, ==_iff, ==_refl, ◌↔◌, Bool-cases, inl, inr,
}
use mathlib.Core.Bool.{true≢false}
use mathlib.Core.Option.{some-injective, none-ne-some}
use logic.CommandLine.{
  starts, matches, name_length, find_argument, g_argument, Argument, testname, verbosity,
  config_string, config_int, Verbosity, uvm_none, uvm_low, uvm_medium, uvm_high, uvm_full,
  g_verbosity, same_text, find_verbosity,
}

starts-append : (name rest : List ℕ) → starts name (name ++ rest) ≡ true
unfolding starts
starts-append [] rest = refl
starts-append (c ∷ name) rest = rw (==_refl, starts-append name rest) refl

starts_prefix :
    (name arg : List ℕ) → starts name arg ≡ true → (rest : List ℕ) × (arg ≡ name ++ rest)
unfolding starts
starts_prefix [] arg h = (arg, refl)
starts_prefix (c ∷ name) [] h = absurd (true≢false (sym h))
starts_prefix (c ∷ name) (d ∷ arg) h = elim (Bool-cases (c == d)) [
  | inl e ↦
      let (rest, same) = starts_prefix name arg (sym (taken (c == d) e) ∙ h) in
      (rest, ap₂ ◌∷◌ (sym ((==_iff c d).0 e)) same)
  | inr e ↦ absurd (true≢false (sym h ∙ left (c == d) e))
]
  where
    taken : (b : Bool) → b ≡ true → (if b then starts name arg else false) ≡ starts name arg
    taken b e = rw e refl

    left : (b : Bool) → b ≡ false → (if b then starts name arg else false) ≡ false
    left b e = rw e refl

-- A name matches an argument exactly when the argument begins with it, and a null pointer matches
-- nothing and is matched by nothing.
matches_iff :
    (name arg : List ℕ)
    → ((matches (some name) (some arg) ≡ true) ↔ ((rest : List ℕ) × (arg ≡ name ++ rest)))
      × (matches none (some arg) ≡ false)
      × (matches (some name) none ≡ false)
unfolding matches
matches_iff name arg =
    ((starts_prefix name arg, λ h. ap (starts name) h.1 ∙ starts-append name h.0), refl, refl)

-- The names of the options and of the levels, as they are typed.
abbrev pub option_text : Argument → List ℕ
option_text testname =
    b'+' ∷ b'U' ∷ b'V' ∷ b'M' ∷ b'_' ∷ b'T' ∷ b'E' ∷ b'S' ∷ b'T' ∷ b'N' ∷ b'A' ∷ b'M' ∷ b'E' ∷ b'='
    ∷ []
option_text verbosity =
    b'+' ∷ b'U' ∷ b'V' ∷ b'M' ∷ b'_' ∷ b'V' ∷ b'E' ∷ b'R' ∷ b'B' ∷ b'O' ∷ b'S' ∷ b'I' ∷ b'T' ∷ b'Y'
    ∷ b'=' ∷ []
option_text config_string =
    b'+' ∷ b'u' ∷ b'v' ∷ b'm' ∷ b'_' ∷ b's' ∷ b'e' ∷ b't' ∷ b'_' ∷ b'c' ∷ b'o' ∷ b'n' ∷ b'f' ∷ b'i'
    ∷ b'g' ∷ b'_' ∷ b's' ∷ b't' ∷ b'r' ∷ b'i' ∷ b'n' ∷ b'g' ∷ b'=' ∷ []
option_text config_int =
    b'+' ∷ b'u' ∷ b'v' ∷ b'm' ∷ b'_' ∷ b's' ∷ b'e' ∷ b't' ∷ b'_' ∷ b'c' ∷ b'o' ∷ b'n' ∷ b'f' ∷ b'i'
    ∷ b'g' ∷ b'_' ∷ b'i' ∷ b'n' ∷ b't' ∷ b'=' ∷ []

abbrev pub level_text : Verbosity → List ℕ
level_text uvm_none = b'U' ∷ b'V' ∷ b'M' ∷ b'_' ∷ b'N' ∷ b'O' ∷ b'N' ∷ b'E' ∷ []
level_text uvm_low = b'U' ∷ b'V' ∷ b'M' ∷ b'_' ∷ b'L' ∷ b'O' ∷ b'W' ∷ []
level_text uvm_medium = b'U' ∷ b'V' ∷ b'M' ∷ b'_' ∷ b'M' ∷ b'E' ∷ b'D' ∷ b'I' ∷ b'U' ∷ b'M' ∷ []
level_text uvm_high = b'U' ∷ b'V' ∷ b'M' ∷ b'_' ∷ b'H' ∷ b'I' ∷ b'G' ∷ b'H' ∷ []
level_text uvm_full = b'U' ∷ b'V' ∷ b'M' ∷ b'_' ∷ b'F' ∷ b'U' ∷ b'L' ∷ b'L' ∷ []

pub found_argument :
    (argument : Argument) (value : List ℕ)
    → find_argument g_argument (option_text argument ++ value) ≡ some (argument, value)
unfolding find_argument matches starts name_length
found_argument testname value = refl
found_argument verbosity value = refl
found_argument config_string value = refl
found_argument config_int value = refl

drop-append : (name rest : List ℕ) → drop (length name) (name ++ rest) ≡ rest
drop-append [] rest = refl
drop-append (c ∷ name) rest = drop-append name rest

name_length_lem : (name : List ℕ) → name_length (some name) ≡ length name
unfolding name_length
name_length_lem name = refl

-- What an entry of a table that matches an argument leaves of it.
table_lem :
    (table : List (Argument × List ℕ)) (arg : List ℕ) (argument : Argument) (value : List ℕ)
    → All (λ entry. entry.1 ≡ option_text entry.0) table
    → find_argument table arg ≡ some (argument, value)
    → arg ≡ option_text argument ++ value
unfolding find_argument matches
table_lem [] arg argument value names e = absurd (none-ne-some (argument, value) e)
table_lem ((entry, name) ∷ table) arg argument value names e = elim (Bool-cases (starts name arg)) [
  | inl m ↦ taken (starts_prefix name arg m) (rw m at e)
  | inr m ↦ table_lem table arg argument value names.1 (rw m at e)
]
  where
    left_over : (rest : List ℕ) → arg ≡ name ++ rest → drop (name_length (some name)) arg ≡ rest
    left_over rest same = ap₂ drop (name_length_lem name) same ∙ drop-append name rest

    taken :
        (rest : List ℕ) × (arg ≡ name ++ rest)
        → ◌≡◌ {A = Option (Argument × List ℕ)}
            (some (entry, drop (name_length (some name)) arg))
            (some (argument, value))
        → arg ≡ option_text argument ++ value
    taken (rest, same) found =
        same
        ∙ ap₂ (λ (n v : List ℕ). n ++ v) names.0 (sym (left_over rest same))
        ∙ ap (λ (q : Argument × List ℕ). option_text q.0 ++ q.1)
            (some-injective (entry, drop (name_length (some name)) arg) (argument, value) found)

pub found_option :
    (arg : List ℕ) (argument : Argument) (value : List ℕ)
    → find_argument g_argument arg ≡ some (argument, value)
    → arg ≡ option_text argument ++ value
found_option arg argument value =
    table_lem g_argument arg argument value (refl, (refl, (refl, (refl, tt))))

same_text_refl : (s : List ℕ) → same_text s s ≡ true
unfolding same_text
same_text_refl [] = refl
same_text_refl (c ∷ s) = rw (==_refl, same_text_refl s) refl

same_text-eq : (s t : List ℕ) → same_text s t ≡ true → s ≡ t
unfolding same_text
same_text-eq [] [] h = refl
same_text-eq [] (d ∷ t) h = absurd (true≢false (sym h))
same_text-eq (c ∷ s) [] h = absurd (true≢false (sym h))
same_text-eq (c ∷ s) (d ∷ t) h = elim (Bool-cases (c == d)) [
  | inl e ↦ ap₂ ◌∷◌ ((==_iff c d).0 e) (same_text-eq s t (rw e at h))
  | inr e ↦ absurd (true≢false (sym (rw e at h)))
]

pub level_found : (level : Verbosity) → find_verbosity g_verbosity (level_text level) ≡ some level
unfolding find_verbosity same_text
level_found uvm_none = refl
level_found uvm_low = refl
level_found uvm_medium = refl
level_found uvm_high = refl
level_found uvm_full = refl

levels_lem :
    (table : List (Verbosity × List ℕ)) (text : List ℕ) (level : Verbosity)
    → All (λ entry. entry.1 ≡ level_text entry.0) table
    → find_verbosity table text ≡ some level
    → text ≡ level_text level
unfolding find_verbosity
levels_lem [] text level names e = absurd (none-ne-some level e)
levels_lem ((entry, name) ∷ table) text level names e = elim (Bool-cases (same_text text name)) [
  | inl m ↦
      same_text-eq text name m ∙ names.0 ∙ ap level_text (some-injective entry level (rw m at e))
  | inr m ↦ levels_lem table text level names.1 (rw m at e)
]

pub found_level :
    (text : List ℕ) (level : Verbosity)
    → find_verbosity g_verbosity text ≡ some level
    → text ≡ level_text level
found_level text level =
    levels_lem g_verbosity text level (refl, (refl, (refl, (refl, (refl, tt)))))
