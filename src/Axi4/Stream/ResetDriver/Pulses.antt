-- ===== src/Axi4/Stream/ResetDriver/Pulses.antt =====
-- The pulses that `run_phase` of src/logic/axi4/stream/reset_driver.cpp gives.
use mathlib.Core.Bool.{false≢true}
use mathlib.Core.List.{append_assoc}
use logic.Base.{
  sym, subst, ℕ, zero, suc, ◌≤◌, ◌≡◌, refl, ap, ◌∙◌, Bool, true, false, List, [], ◌∷◌, ◌++◌, arith,
  All,
}
use logic.Axi4.Stream.Items.{ResetItem}
use logic.Axi4.Stream.ResetDriver.{hold, reset_transfer, reset_run_phase}

-- A level and for how many edges it lasts.
abbrev pub Pulse : Type 0
Pulse = Bool × ℕ

-- One more edge in front of pulses.
pub longer : Bool → List Pulse → List Pulse
longer b [] = (b, 1) ∷ []
longer true ((true, n) ∷ rest) = (true, suc n) ∷ rest
longer false ((false, n) ∷ rest) = (false, suc n) ∷ rest
longer true ((false, n) ∷ rest) = (true, 1) ∷ (false, n) ∷ rest
longer false ((true, n) ∷ rest) = (false, 1) ∷ (true, n) ∷ rest

-- The pulses of a signal: the longest runs of one level.
pub pulses : List Bool → List Pulse
pulses [] = []
pulses (b ∷ levels) = longer b (pulses levels)

-- The pulses that items ask for.
pub asked : List ResetItem → List Pulse
asked [] = []
asked (item ∷ items) = (false, item.duration) ∷ (true, item.idle) ∷ asked items

abbrev pub HasEdges : ResetItem → Type 0
HasEdges item = (1 ≤ item.duration) × (1 ≤ item.idle)

-- Pulses that do not begin with a level.
BeginsOther : Bool → List Pulse → Type 0
BeginsOther b [] = Unit
BeginsOther true ((c, n) ∷ rest) = c ≡ false
BeginsOther false ((c, n) ∷ rest) = c ≡ true

longer-new : (b : Bool) (rest : List Pulse) → BeginsOther b rest → longer b rest ≡ (b, 1) ∷ rest
unfolding BeginsOther longer
longer-new b [] h = refl
longer-new true ((false, n) ∷ rest) h = refl
longer-new false ((true, n) ∷ rest) h = refl
longer-new true ((true, n) ∷ rest) h = absurd (false≢true (sym h))
longer-new false ((false, n) ∷ rest) h = absurd (false≢true h)

longer-same : (b : Bool) (n : ℕ) (rest : List Pulse) → longer b ((b, n) ∷ rest) ≡ (b, suc n) ∷ rest
unfolding longer
longer-same true n rest = refl
longer-same false n rest = refl

pulses-hold :
    (b : Bool) (count : ℕ) (levels : List Bool)
    → BeginsOther b (pulses levels)
    → 1 ≤ count
    → pulses (hold b count ++ levels) ≡ (b, count) ∷ pulses levels
unfolding pulses hold
pulses-hold b zero levels h k = absurd (omega (arith, k))
pulses-hold b (suc zero) levels h k = longer-new b (pulses levels) h
pulses-hold b (suc (suc count)) levels h k =
    ap (longer b) (pulses-hold b (suc count) levels h (omega arith))
    ∙ longer-same b (suc count) (pulses levels)

asked-high : (items : List ResetItem) → BeginsOther true (asked items)
unfolding BeginsOther asked
asked-high [] = tt
asked-high (item ∷ items) = refl

item-pulses :
    (item : ResetItem) (items : List ResetItem)
    → HasEdges item
    → pulses (reset_run_phase items) ≡ asked items
    → pulses (reset_run_phase (item ∷ items)) ≡ asked (item ∷ items)
unfolding asked reset_run_phase reset_transfer BeginsOther
item-pulses item items (first, second) later =
    ap pulses
      (append_assoc (hold false item.duration) (hold true item.idle) (reset_run_phase items))
    ∙ pulses-hold false item.duration (hold true item.idle ++ reset_run_phase items)
        (subst (BeginsOther false) (sym high) refl) first
    ∙ ap (λ l. (false, item.duration) ∷ l) high
  where
    high : pulses (hold true item.idle ++ reset_run_phase items) ≡ (true, item.idle) ∷ asked items
    high =
        pulses-hold true item.idle (reset_run_phase items)
          (subst (BeginsOther true) (sym later) (asked-high items)) second
        ∙ ap (λ l. (true, item.idle) ∷ l) later

-- When every item holds and releases the reset for at least one edge, the longest runs of one level
-- that `areset_n` shows while `run_phase` serves the items are the durations and idle edges that
-- they ask for, in order, the low ones first.
pub pulses-asked :
    (items : List ResetItem) → All HasEdges items → pulses (reset_run_phase items) ≡ asked items
unfolding pulses asked reset_run_phase
pulses-asked [] w = refl
pulses-asked (item ∷ items) (edges, w) = item-pulses item items edges (pulses-asked items w)
