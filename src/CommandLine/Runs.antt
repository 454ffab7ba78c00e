-- ===== src/CommandLine/Runs.antt =====
-- What the constructor of src/logic/command_line.cpp asks of UVM, by what the arguments say.
use mathlib.Core.Option.{some-injective, none-ne-some}
use logic.Base.{
  ℕ, ◌≡◌, refl, sym, ap, subst, ◌∙◌, Bool, true, false, Option, none, some, List, [], ◌∷◌, ◌++◌,
  ◌↔◌, ◌>>=◌,
}
use logic.Base.Int.{ℤ}
use logic.CommandLine.{
  Argument, testname, verbosity, config_string, config_int, Verbosity, Request, create_test,
  set_verbosity, set_config_string, set_config_int, split_3, g_argument, find_argument, g_verbosity,
  find_verbosity, callback, command_line,
}
use logic.CommandLine.Split.{NoComma, joined, split_3_iff}
use logic.CommandLine.Dispatch.{
  option_text, level_text, found_argument, found_option, level_found, found_level,
}

-- An argument is an option with this text after its name.
abbrev pub IsOption : List ℕ → Type 0
IsOption arg = (argument : Argument) × (value : List ℕ) × (arg ≡ option_text argument ++ value)

module _ (stoi : List ℕ → Option ℤ) where
  -- What an option asks for, if its text is of the form that the option has.
  pub data Means : Argument → List ℕ → Request → Type 0 where
    test_name : {name : List ℕ} → Means testname name (create_test name)
    level_name : {level : Verbosity} → Means verbosity (level_text level) (set_verbosity level)
    string_value :
        {path field value : List ℕ}
        → NoComma path
        → NoComma field
        → Means config_string (joined path field value) (set_config_string path field value)
    int_value :
        {path field value : List ℕ} {number : ℤ}
        → NoComma path
        → NoComma field
        → stoi value ≡ some number
        → Means config_int (joined path field value) (set_config_int path field number)

  -- A run over the arguments: those that are no option are passed over, and an option whose text has
  -- another form ends it with an exception.
  pub data Runs : List (List ℕ) → List Request → Bool → Type 0 where
    at_end : Runs [] [] false
    passed :
        {arg : List ℕ} {args : List (List ℕ)} {requests : List Request} {thrown : Bool}
        → ¬ IsOption arg
        → Runs args requests thrown
        → Runs (arg ∷ args) requests thrown
    asked :
        {argument : Argument} {value : List ℕ} {request : Request} {args : List (List ℕ)}
        {requests : List Request} {thrown : Bool}
        → Means argument value request
        → Runs args requests thrown
        → Runs ((option_text argument ++ value) ∷ args) (request ∷ requests) thrown
    malformed :
        {argument : Argument} {value : List ℕ} {args : List (List ℕ)}
        → ((request : Request) → ¬ Means argument value request)
        → Runs ((option_text argument ++ value) ∷ args) [] true

  callback-Means :
      (argument : Argument) (value : List ℕ) (request : Request)
      → Means argument value request
      → callback stoi argument value ≡ some request
  unfolding callback
  callback-Means argument value request (test_name) = refl
  callback-Means argument value request (level_name {level}) = rw (level_found level) refl
  callback-Means argument value request (string_value {path} {field} {value = text} h k) =
      rw ((split_3_iff (joined path field text) path field text).1 (h, k, refl)) refl
  callback-Means argument value request (int_value {path} {field} {value = text} {number} h k n) =
      rw ((split_3_iff (joined path field text) path field text).1 (h, k, refl), n) refl

  Means-callback :
      (argument : Argument) (value : List ℕ) (request : Request)
      → callback stoi argument value ≡ some request
      → Means argument value request
  unfolding callback
  Means-callback testname value request e =
      subst (Means testname value) (some-injective (create_test value) request e) test_name
  Means-callback verbosity value request e = by_level (find_verbosity g_verbosity value) refl e
    where
      by_level :
          (found : Option Verbosity)
          → find_verbosity g_verbosity value ≡ found
          → (found >>= λ level. some (set_verbosity level)) ≡ some request
          → Means verbosity value request
      by_level none f e = absurd (none-ne-some request e)
      by_level (some level) f e =
          subst (Means verbosity value) (some-injective (set_verbosity level) request e) (
            subst (λ v. Means verbosity v (set_verbosity level)) (sym (found_level value level f))
              level_name)
  Means-callback config_string value request e = by_parts (split_3 value) refl e
    where
      by_parts :
          (parts : Option (List ℕ × List ℕ × List ℕ))
          → split_3 value ≡ parts
          → (parts >>= λ t. some (set_config_string t.0 t.1 t.2)) ≡ some request
          → Means config_string value request
      by_parts none f e = absurd (none-ne-some request e)
      by_parts (some (a, b, c)) f e =
          let (h, k, same) = (split_3_iff value a b c).0 f in
          subst (Means config_string value) (some-injective (set_config_string a b c) request e) (
            subst (λ v. Means config_string v (set_config_string a b c)) (sym same)
              (string_value h k))
  Means-callback config_int value request e = by_parts (split_3 value) refl e
    where
      by_number :
          (a b c : List ℕ) (number : Option ℤ)
          → split_3 value ≡ some (a, b, c)
          → stoi c ≡ number
          → (number >>= λ n. some (set_config_int a b n)) ≡ some request
          → Means config_int value request
      by_number a b c none f g e = absurd (none-ne-some request e)
      by_number a b c (some n) f g e =
          let (h, k, same) = (split_3_iff value a b c).0 f in
          subst (Means config_int value) (some-injective (set_config_int a b n) request e)
            (subst (λ v. Means config_int v (set_config_int a b n)) (sym same) (int_value h k g))

      by_parts :
          (parts : Option (List ℕ × List ℕ × List ℕ))
          → split_3 value ≡ parts
          → (parts >>= λ t. stoi t.2 >>= λ n. some (set_config_int t.0 t.1 n)) ≡ some request
          → Means config_int value request
      by_parts none f e = absurd (none-ne-some request e)
      by_parts (some (a, b, c)) f e = by_number a b c (stoi c) f refl e

  passed_over :
      (arg : List ℕ) (args : List (List ℕ))
      → find_argument g_argument arg ≡ none
      → command_line stoi (arg ∷ args) ≡ command_line stoi args
  unfolding command_line
  passed_over arg args e = rw (command_line, e) refl

  ended_by :
      (arg : List ℕ) (args : List (List ℕ)) (argument : Argument) (value : List ℕ)
      → find_argument g_argument arg ≡ some (argument, value)
      → callback stoi argument value ≡ none
      → command_line stoi (arg ∷ args) ≡ ([], true)
  unfolding command_line
  ended_by arg args argument value e c = rw (command_line, e, c) refl

  asked_by :
      (arg : List ℕ) (args : List (List ℕ)) (argument : Argument) (value : List ℕ)
      (request : Request)
      → find_argument g_argument arg ≡ some (argument, value)
      → callback stoi argument value ≡ some request
      → command_line stoi (arg ∷ args)
        ≡ (request ∷ (command_line stoi args).0, (command_line stoi args).1)
  unfolding command_line
  asked_by arg args argument value request e c = rw (command_line, e, c) refl

  abbrev RunsTo : List (List ℕ) → List Request × Bool → Type 0
  RunsTo args result = Runs args result.0 result.1

  run : (args : List (List ℕ)) → RunsTo args (command_line stoi args)
  unfolding command_line
  run [] = at_end
  run (arg ∷ args) = by_found (find_argument g_argument arg) refl (run args)
    where
      by_called :
          (argument : Argument) (value : List ℕ) (called : Option Request)
          → find_argument g_argument arg ≡ some (argument, value)
          → callback stoi argument value ≡ called
          → RunsTo args (command_line stoi args)
          → RunsTo (arg ∷ args) (command_line stoi (arg ∷ args))
      by_called argument value none f c rest =
          subst (RunsTo (arg ∷ args)) (sym (ended_by arg args argument value f c)) (
            subst (λ a. Runs (a ∷ args) [] true) (sym (found_option arg argument value f))
              (malformed (λ request m.
                none-ne-some request (sym c ∙ callback-Means argument value request m))))
      by_called argument value (some request) f c rest =
          subst (RunsTo (arg ∷ args)) (sym (asked_by arg args argument value request f c)) (
            subst
              (λ a.
                Runs (a ∷ args) (request ∷ (command_line stoi args).0) (command_line stoi args).1)
              (sym (found_option arg argument value f))
              (asked (Means-callback argument value request c) rest))

      by_found :
          (found : Option (Argument × List ℕ))
          → find_argument g_argument arg ≡ found
          → RunsTo args (command_line stoi args)
          → RunsTo (arg ∷ args) (command_line stoi (arg ∷ args))
      by_found none f rest = subst (RunsTo (arg ∷ args)) (sym (passed_over arg args f)) (
          passed
            (λ (argument, value, same).
              none-ne-some (argument, value)
                (sym f ∙ ap (find_argument g_argument) same ∙ found_argument argument value))
            rest)
      by_found (some (argument, value)) f rest =
          by_called argument value (callback stoi argument value) f refl rest

  not_found : (arg : List ℕ) → ¬ IsOption arg → find_argument g_argument arg ≡ none
  not_found arg ne = by_found (find_argument g_argument arg) refl
    where
      by_found :
          (found : Option (Argument × List ℕ))
          → find_argument g_argument arg ≡ found
          → find_argument g_argument arg ≡ none
      by_found none f = f
      by_found (some (argument, value)) f =
          absurd (ne (argument, value, found_option arg argument value f))

  not_called :
      (argument : Argument) (value : List ℕ)
      → ((request : Request) → ¬ Means argument value request)
      → callback stoi argument value ≡ none
  not_called argument value ne = by_called (callback stoi argument value) refl
    where
      by_called :
          (called : Option Request)
          → callback stoi argument value ≡ called
          → callback stoi argument value ≡ none
      by_called none c = c
      by_called (some request) c = absurd (ne request (Means-callback argument value request c))

  runs_once :
      {args : List (List ℕ)} {requests : List Request} {thrown : Bool}
      → Runs args requests thrown
      → command_line stoi args ≡ (requests, thrown)
  unfolding command_line
  runs_once at_end = refl
  runs_once (passed {arg} {args} ne rest) = passed_over arg args (not_found arg ne) ∙ runs_once rest
  runs_once (asked {argument} {value} {request} {args} m rest) =
      asked_by (option_text argument ++ value) args argument value request
        (found_argument argument value) (callback-Means argument value request m)
      ∙ ap (λ (p : List Request × Bool). let r : List Request × Bool = (request ∷ p.0, p.1) in r)
          (runs_once rest)
  runs_once (malformed {argument} {value} {args} ne) =
      ended_by (option_text argument ++ value) args argument value (found_argument argument value)
        (not_called argument value ne)

  -- The constructor makes these requests, in order, and ends with an exception or without one
  -- exactly when the arguments say so: an argument that begins with no option's name is passed
  -- over; an option asks for what its text means, where the text is the name of a test, the name
  -- of a verbosity level, or a path, a field and a value joined with commas, the value a number
  -- for an integer; and an option whose text has another form ends the run with an exception,
  -- with only the requests before it.
  pub command_line-Runs :
      (args : List (List ℕ)) (requests : List Request) (thrown : Bool)
      → (command_line stoi args ≡ (requests, thrown)) ↔ Runs args requests thrown
  command_line-Runs args requests thrown =
      (λ e. subst (RunsTo args) e (run args), λ runs. runs_once runs)
