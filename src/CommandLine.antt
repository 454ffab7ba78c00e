-- ===== src/CommandLine.antt =====
-- src/logic/command_line.cpp and src/logic/command_line_argument.cpp: the options of the simulator's
-- command line. A C string is the list of its characters before the null one, by their codes.
pub mod Split
pub mod Dispatch
pub mod Runs
use logic.Base.{
  ℕ, zero, suc, ◌+◌, ◌-◌, Bool, true, false, Option, none, some, List, [], ◌∷◌, if◌then◌else◌, ◌==◌,
  ◌>>=◌, length, drop, take,
}
use logic.Base.Int.{ℤ}

-- `command_line_argument::length` and `match`; `none` is a null pointer.
unfoldable pub name_length : Option (List ℕ) → ℕ
name_length none = 0
name_length (some name) = length name

unfoldable pub starts : List ℕ → List ℕ → Bool
starts [] argument_name = true
starts (c ∷ name) [] = false
starts (c ∷ name) (d ∷ argument_name) =
    let rest = starts name argument_name in if c == d then rest else false

unfoldable pub matches : Option (List ℕ) → Option (List ℕ) → Bool
matches none argument_name = false
matches (some name) none = false
matches (some name) (some argument_name) = starts name argument_name

-- `std::string::find(c, pos)`, where `none` is `npos`, and `substr(pos, n)` for a `pos` inside.
unfoldable pub find_first : ℕ → List ℕ → Option ℕ
find_first c [] = none
find_first c (d ∷ s) =
    let rest = (do i ← find_first c s; some (suc i)) in if d == c then some 0 else rest

unfoldable pub find_from : ℕ → List ℕ → ℕ → Option ℕ
find_from c s pos = do i ← find_first c (drop pos s); some (pos + i)

abbrev pub substr : List ℕ → ℕ → ℕ → List ℕ
substr s pos n = take n (drop pos s)

abbrev pub comma : ℕ
comma = 44

-- `split_3`; `none` is the exception.
unfoldable pub split_3 : List ℕ → Option (List ℕ × List ℕ × List ℕ)
split_3 arg = do
  pos1 ← find_from comma arg 0
  pos2 ← find_from comma arg (pos1 + 1)
  some (substr arg 0 pos1, substr arg (pos1 + 1) (pos2 - pos1 - 1), drop (pos2 + 1) arg)

-- `uvm_verbosity` and `g_verbosity`
pub data Verbosity : Type 0 where
  uvm_none uvm_low uvm_medium uvm_high uvm_full : Verbosity

abbrev pub g_verbosity : List (Verbosity × List ℕ)
g_verbosity =
    (uvm_none, 85 ∷ 86 ∷ 77 ∷ 95 ∷ 78 ∷ 79 ∷ 78 ∷ 69 ∷ [])
    ∷ (uvm_low, 85 ∷ 86 ∷ 77 ∷ 95 ∷ 76 ∷ 79 ∷ 87 ∷ [])
    ∷ (uvm_medium, 85 ∷ 86 ∷ 77 ∷ 95 ∷ 77 ∷ 69 ∷ 68 ∷ 73 ∷ 85 ∷ 77 ∷ [])
    ∷ (uvm_high, 85 ∷ 86 ∷ 77 ∷ 95 ∷ 72 ∷ 73 ∷ 71 ∷ 72 ∷ [])
    ∷ (uvm_full, 85 ∷ 86 ∷ 77 ∷ 95 ∷ 70 ∷ 85 ∷ 76 ∷ 76 ∷ [])
    ∷ []

-- `==` of strings.
unfoldable pub same_text : List ℕ → List ℕ → Bool
same_text [] [] = true
same_text [] (d ∷ t) = false
same_text (c ∷ s) [] = false
same_text (c ∷ s) (d ∷ t) = let rest = same_text s t in if c == d then rest else false

unfoldable pub find_verbosity : List (Verbosity × List ℕ) → List ℕ → Option Verbosity
find_verbosity [] arg = none
find_verbosity ((level, name) ∷ table) arg =
    let rest = find_verbosity table arg in if same_text arg name then some level else rest

-- What a callback asks of UVM.
pub data Request : Type 0 where
  create_test : List ℕ → Request
  set_verbosity : Verbosity → Request
  set_config_string : List ℕ → List ℕ → List ℕ → Request
  set_config_int : List ℕ → List ℕ → ℤ → Request

-- `g_argument`: which options there are, in order.
pub data Argument : Type 0 where
  testname verbosity config_string config_int : Argument

abbrev pub name_of : Argument → List ℕ
name_of testname = 43 ∷ 85 ∷ 86 ∷ 77 ∷ 95 ∷ 84 ∷ 69 ∷ 83 ∷ 84 ∷ 78 ∷ 65 ∷ 77 ∷ 69 ∷ 61 ∷ []
name_of verbosity = 43 ∷ 85 ∷ 86 ∷ 77 ∷ 95 ∷ 86 ∷ 69 ∷ 82 ∷ 66 ∷ 79 ∷ 83 ∷ 73 ∷ 84 ∷ 89 ∷ 61 ∷ []
name_of config_string =
    43 ∷ 117 ∷ 118 ∷ 109 ∷ 95 ∷ 115 ∷ 101 ∷ 116 ∷ 95 ∷ 99 ∷ 111 ∷ 110 ∷ 102 ∷ 105 ∷ 103 ∷ 95 ∷ 115
    ∷ 116 ∷ 114 ∷ 105 ∷ 110 ∷ 103 ∷ 61 ∷ []
name_of config_int =
    43 ∷ 117 ∷ 118 ∷ 109 ∷ 95 ∷ 115 ∷ 101 ∷ 116 ∷ 95 ∷ 99 ∷ 111 ∷ 110 ∷ 102 ∷ 105 ∷ 103 ∷ 95 ∷ 105
    ∷ 110 ∷ 116 ∷ 61 ∷ []

abbrev pub g_argument : List (Argument × List ℕ)
g_argument =
    (testname, name_of testname)
    ∷ (verbosity, name_of verbosity)
    ∷ (config_string, name_of config_string)
    ∷ (config_int, name_of config_int)
    ∷ []

unfoldable pub find_argument : List (Argument × List ℕ) → List ℕ → Option (Argument × List ℕ)
find_argument [] arg = none
find_argument ((argument, name) ∷ table) arg =
    let rest = find_argument table arg in
    if matches (some name) (some arg)
    then some (argument, drop (name_length (some name)) arg)
    else rest

-- `std::stoi` is a parameter: `none` is its exception.
module _ (stoi : List ℕ → Option ℤ) where
  -- The callbacks; `none` is an exception.
  unfoldable pub callback : Argument → List ℕ → Option Request
  callback testname arg = some (create_test arg)
  callback verbosity arg = do level ← find_verbosity g_verbosity arg; some (set_verbosity level)
  callback config_string arg = do
    value ← split_3 arg
    some (set_config_string value.0 value.1 value.2)
  callback config_int arg = do
    value ← split_3 arg
    number ← stoi value.2
    some (set_config_int value.0 value.1 number)

  -- The loop of the constructor over the arguments after the first: the requests made, in order, and
  -- whether an exception ended it.
  unfoldable pub command_line : List (List ℕ) → List Request × Bool
  command_line [] = ([], false)
  command_line (arg ∷ args) =
      let (requests, thrown) = command_line args in
      elim (find_argument g_argument arg) [
        | none ↦ (requests, thrown)
        | some (argument, value) ↦ elim (callback argument value) [
          | none ↦ ([], true)
          | some request ↦ (request ∷ requests, thrown)
        ]
      ]
