-- ===== src/Tests/Resets.antt =====
-- Two resets, of three edges and of one (src/logic/axi4/stream/reset_driver.cpp).
use logic.Base.{◌≡◌, List, [], ◌∷◌, arith}
use logic.Axi4.Stream.Items.{ResetItem}
use logic.Axi4.Stream.ResetDriver.{reset_run_phase}
use logic.Axi4.Stream.ResetDriver.Pulses.{pulses, asked, pulses-asked}

abbrev resets : List ResetItem
resets = record { duration = 3; idle = 2 } ∷ record { duration = 1; idle = 5 } ∷ []

pulses-asked_example : pulses (reset_run_phase resets) ≡ asked resets
pulses-asked_example =
    pulses-asked resets ((omega arith, omega arith), ((omega arith, omega arith), tt))
