-- ===== src/Axi4/Stream/RxDriver/Lanes.antt =====
-- The lanes that the driver writes are the bytes that the monitor reads.
use logic.Base.{
  ℕ, zero, suc, ◌+◌, ◌≤◌, ◌<◌, min, ◌≡◌, refl, ap, ap₂, ◌∙◌, false, none, some, List, [], ◌∷◌,
  arith, length, get_elem?, drop, ◌==◌, ==_refl, inl, inr, ◌⊎◌,
}
use logic.Axi4.Stream.TdataByte.{
  ByteType, data_byte, null_byte, position_byte, reserved, TdataByte, of_both,
}
use logic.Axi4.Stream.BusIf.{BusIf, set_tkeep, set_tstrb, set_tdata}
use logic.Axi4.Stream.Monitor.{tdata_byte_type, lane_bytes}
use logic.Axi4.Stream.RxDriver.{keep_of, strb_of, drive_byte, drive_nothing, drive_lanes}

-- The byte type that the monitor reads from `tkeep` and `tstrb` is the one that the driver wrote.
type_decode : (t : ByteType) → tdata_byte_type (keep_of t) (strb_of t) ≡ t
unfolding tdata_byte_type keep_of strb_of
type_decode data_byte = refl
type_decode null_byte = refl
type_decode position_byte = refl
type_decode reserved = refl

abbrev pub padding : TdataByte
padding = record { m_type = null_byte; m_data = 0 }

-- The first `n` bytes, filled up with null bytes.
abbrev pub padded : ℕ → List TdataByte → List TdataByte
padded zero xs = []
padded (suc n) [] = padding ∷ padded n []
padded (suc n) (x ∷ xs) = x ∷ padded n xs

abbrev pub lane_byte : BusIf → ℕ → TdataByte
lane_byte vif i = of_both (vif.tdata i) (tdata_byte_type (vif.tkeep i) (vif.tstrb i))

lane-drive_byte : (i : ℕ) (b : TdataByte) (vif : BusIf) → lane_byte (drive_byte i b vif) i ≡ b
unfolding drive_byte set_tdata set_tstrb set_tkeep of_both
lane-drive_byte i b vif = rw ==_refl (
    ap (λ t. let r : TdataByte = record { m_type = t; m_data = b.m_data } in r)
      (type_decode b.m_type))

lane-drive_nothing : (i : ℕ) (vif : BusIf) → lane_byte (drive_nothing i vif) i ≡ padding
unfolding drive_nothing set_tdata set_tstrb set_tkeep of_both tdata_byte_type
lane-drive_nothing i vif = rw ==_refl refl

other : (i j : ℕ) → j < i → (j == i) ≡ false
other i j h = ground arith

lane-drive_byte_below :
    (i j : ℕ) (b : TdataByte) (vif : BusIf)
    → j < i
    → lane_byte (drive_byte i b vif) j ≡ lane_byte vif j
unfolding drive_byte set_tdata set_tstrb set_tkeep
lane-drive_byte_below i j b vif h = rw (other i j h)

lane-drive_nothing_below :
    (i j : ℕ) (vif : BusIf) → j < i → lane_byte (drive_nothing i vif) j ≡ lane_byte vif j
unfolding drive_nothing set_tdata set_tstrb set_tkeep
lane-drive_nothing_below i j vif h = rw (other i j h)

pub get_elem?-drop {ℓ} :
    {A : Type ℓ} (xs : List A) (i : ℕ)
    → ((get_elem? xs i ≡ none) × (drop i xs ≡ []) × (length xs ≤ i))
      ⊎ ((x : A) × (get_elem? xs i ≡ some x) × (drop i xs ≡ x ∷ drop (suc i) xs) × (i < length xs))
get_elem?-drop [] zero = inl (refl, refl, omega arith)
get_elem?-drop [] (suc i) = inl (refl, refl, omega arith)
get_elem?-drop (x ∷ xs) zero = inr (x, refl, refl, omega arith)
get_elem?-drop (x ∷ xs) (suc i) = elim (get_elem?-drop xs i) [
  | inl (e, d, l) ↦ inl (e, d, omega arith)
  | inr (y, e, d, l) ↦ inr (y, e, d, omega arith)
]

-- The loop over the lanes as a whole.
pub record Driven (tdata : List TdataByte) (left i index : ℕ) (vif : BusIf) : Type 0 where
  pub lanes :
      lane_bytes (drive_lanes tdata left i index vif).1 i left ≡ padded left (drop index tdata)
  pub below : (j : ℕ) → j < i → lane_byte (drive_lanes tdata left i index vif).1 j ≡ lane_byte vif j
  pub advanced :
      index ≤ length tdata
      → (drive_lanes tdata left i index vif).0 ≡ min (index + left) (length tdata)

module _ (tdata : List TdataByte) (left i index : ℕ) (vif : BusIf) where
  pub step_some :
      (b : TdataByte)
      → get_elem? tdata index ≡ some b
      → drive_lanes tdata (suc left) i index vif
        ≡ drive_lanes tdata left (suc i) (suc index) (drive_byte i b vif)
  unfolding drive_lanes
  step_some b e = rw (e, drive_lanes)

  pub step_none :
      get_elem? tdata index ≡ none
      → drive_lanes tdata (suc left) i index vif
        ≡ drive_lanes tdata left (suc i) index (drive_nothing i vif)
  unfolding drive_lanes
  step_none e = rw (e, drive_lanes)

pub lane_bytes-suc :
    (vif : BusIf) (i left : ℕ)
    → lane_bytes vif i (suc left) ≡ lane_byte vif i ∷ lane_bytes vif (suc i) left
unfolding lane_bytes
lane_bytes-suc vif i left = refl

pub drive_lanes-Driven :
    (tdata : List TdataByte) (left i index : ℕ) (vif : BusIf) → Driven tdata left i index vif
drive_lanes-Driven tdata zero i index vif =
    unfold drive_lanes lane_bytes in
    record { lanes = refl; below = λ j h. refl; advanced = λ h. omega arith }
drive_lanes-Driven tdata (suc left) i index vif = elim (get_elem?-drop tdata index) [
  | inl (e, d, l) ↦
      let rest = drive_lanes-Driven tdata left (suc i) index (drive_nothing i vif) in
      let step = step_none tdata left i index vif e in
      record {
        lanes =
            rw (step, d)
              (lane_bytes-suc _ i left
                ∙ ap₂ ◌∷◌ (rest.below i (omega arith) ∙ lane-drive_nothing i vif)
                    (rest.lanes ∙ ap (padded left) d));
        below = λ j h. rw step (rest.below j (omega arith) ∙ lane-drive_nothing_below i j vif h);
        advanced = λ h. rw step (rest.advanced h ∙ omega arith);
      }
  | inr (b, e, d, l) ↦
      let rest = drive_lanes-Driven tdata left (suc i) (suc index) (drive_byte i b vif) in
      let step = step_some tdata left i index vif b e in
      record {
        lanes =
            rw (step, d)
              (lane_bytes-suc _ i left
                ∙ ap₂ ◌∷◌ (rest.below i (omega arith) ∙ lane-drive_byte i b vif) rest.lanes);
        below = λ j h. rw step (rest.below j (omega arith) ∙ lane-drive_byte_below i j b vif h);
        advanced = λ h. rw step (rest.advanced l ∙ omega arith);
      }
]
