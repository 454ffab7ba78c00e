-- ===== src/Tests/Options.antt =====
-- Command line options (src/logic/command_line.cpp).
use logic.Base.{ℕ, ◌≡◌, refl, false, Option, some, List, [], ◌∷◌, ◌++◌, ◌↔◌}
use logic.Base.Int.{ℤ, pos}
use logic.CommandLine.{split_3, command_line, Request, set_config_string, config_string}
use logic.CommandLine.Split.{NoComma, joined, split_3_iff}
use logic.CommandLine.Dispatch.{option_text}
use logic.CommandLine.Runs.{Runs, command_line-Runs}

-- `a,b,c`
abbrev abc : List ℕ
abc = 97 ∷ 44 ∷ 98 ∷ 44 ∷ 99 ∷ []

split_3_iff_example :
    (split_3 abc ≡ some (97 ∷ [], 98 ∷ [], 99 ∷ []))
    ↔ (NoComma (97 ∷ [])) × (NoComma (98 ∷ [])) × (abc ≡ joined (97 ∷ []) (98 ∷ []) (99 ∷ []))
split_3_iff_example = split_3_iff abc (97 ∷ []) (98 ∷ []) (99 ∷ [])

abbrev stoi : List ℕ → Option ℤ
stoi text = some (pos 0)

-- An argument that is no option, and a string for the field `b` of `a`.
abbrev arguments : List (List ℕ)
arguments = abc ∷ (option_text config_string ++ abc) ∷ []

abbrev asked_for : List Request
asked_for = set_config_string (97 ∷ []) (98 ∷ []) (99 ∷ []) ∷ []

command_line-Runs_example :
    (command_line stoi arguments ≡ (asked_for, false)) ↔ Runs stoi arguments asked_for false
command_line-Runs_example = command_line-Runs stoi arguments asked_for false

-- It does make that request.
made : command_line stoi arguments ≡ (asked_for, false)
unfolding command_line logic.CommandLine.find_argument logic.CommandLine.matches
    logic.CommandLine.starts logic.CommandLine.name_length logic.CommandLine.callback split_3
    logic.CommandLine.find_from logic.CommandLine.find_first
made = refl
