-- ===== src/Axi4/Stream/ResetDriver.antt =====
-- src/logic/axi4/stream/reset_driver.cpp: holds the reset for the edges that an item asks for, and then
-- lets others pass.
pub mod Pulses
use logic.Base.{ℕ, zero, suc, Bool, true, false, List, [], ◌∷◌, ◌++◌}
use logic.Axi4.Stream.Items.{ResetItem}

-- The loop `while (0 != count--) aclk_posedge();` while `areset_n` has a value: what it shows at the
-- edges.
unfoldable pub hold : Bool → ℕ → List Bool
hold areset_n zero = []
hold areset_n (suc count) = areset_n ∷ hold areset_n count

-- `transfer`: what `areset_n` shows at the edges until it returns.
unfoldable pub reset_transfer : ResetItem → List Bool
reset_transfer item = hold false item.duration ++ hold true item.idle

-- `run_phase`: what `areset_n` shows while the items of the sequencer are served.
unfoldable pub reset_run_phase : List ResetItem → List Bool
reset_run_phase [] = []
reset_run_phase (item ∷ items) = reset_transfer item ++ reset_run_phase items
