-- ===== src/Tests/Owners.antt =====
-- Objects of `logic::bitstream` (src/logic/bitstream.cpp) that are made, assigned and ended.
use logic.Base.{ℕ, ◌≡◌, refl, none, some, [], ◌∷◌, arith, ◌==◌, Bool-cases, inl, inr}
use logic.Storage.{size}
use logic.Bitstream.Defs.{Bitstream, resize}
use logic.Bitstream.Owner.{
  Object, Memory, put, set_object, construct, allocate, delete, bytes_at, destroy, sized_of,
  copy_to, end_of, call, copy_assign, move_assign, reallocate,
}
use logic.Bitstream.Owner.Kept.{IsOwned}
use logic.Bitstream.Owner.Shown.{Shows}
use logic.Bitstream.Owner.Contents.{copy_assign-values, move_assign-values}
use logic.Bitstream.Owner.Reallocated.{reallocate-values}
use logic.Bitstream.Owner.Lifetimes.{
  IsScoped, empty_memory, Reached, start, after, reached-IsOwned, call_returns, no_leak,
}

-- One object of twelve bits; then another one of four, and a third one of nine.
abbrev one_object : Memory
one_object = construct 0 12 empty_memory

abbrev two_objects : Memory
two_objects = construct 1 4 one_object

abbrev three_objects : Memory
three_objects = construct 2 9 two_objects

one_object-Reached : Reached 7 one_object
unfolding call
one_object-Reached = after (sized_of 0 12) start (unfold IsScoped in (refl, omega arith)) refl

two_objects-Reached : Reached 7 two_objects
unfolding call
two_objects-Reached =
    after (sized_of 1 4) one_object-Reached
      (unfold IsScoped construct set_object allocate in (refl, omega arith)) refl

three_objects-Reached : Reached 7 three_objects
unfolding call
three_objects-Reached =
    after (sized_of 2 9) two_objects-Reached
      (unfold IsScoped construct set_object allocate in (refl, omega arith)) refl

three_objects-IsOwned : IsOwned three_objects
three_objects-IsOwned = reached-IsOwned three_objects-Reached

abbrev twelve_bits : Object
twelve_bits = record { m_bits = some 0; m_size = 12 }

first_live : three_objects.object 0 ≡ some twelve_bits
unfolding construct set_object allocate
first_live = refl

second_live : three_objects.object 1 ≡ some (record { m_bits = some 1; m_size = 4 })
unfolding construct set_object allocate
second_live = refl

first-Shows : Shows three_objects 0 12 (0 ∷ 0 ∷ [])
unfolding construct set_object allocate bytes_at size
first-Shows = record { o = twelve_bits; live = refl; sized = refl; shown = refl }

second-Shows : Shows three_objects 1 4 (0 ∷ [])
unfolding construct set_object allocate bytes_at size
second-Shows = record {
  o = record { m_bits = some 1; m_size = 4 };
  live = refl;
  sized = refl;
  shown = refl;
}

third-Shows : Shows three_objects 2 9 (0 ∷ 0 ∷ [])
unfolding construct set_object allocate bytes_at size
third-Shows = record {
  o = record { m_bits = some 2; m_size = 9 };
  live = refl;
  sized = refl;
  shown = refl;
}

call_returns_example :
    (out : Memory) × (call 7 (copy_to 0 1) three_objects ≡ some out) × Reached 7 out × IsOwned out
call_returns_example = call_returns 7 (copy_to 0 1) three_objects-Reached (
    unfold IsScoped in
    ((twelve_bits, first_live), (record { m_bits = some 1; m_size = 4 }, second_live)))

-- The object of twelve bits has ended.
abbrev no_object : Memory
no_object = set_object 0 none (record one_object { buffer = put 0 none one_object.buffer })

no_object-Reached : Reached 7 no_object
unfolding call destroy construct set_object allocate delete
no_object-Reached =
    after (end_of 0) one_object-Reached (unfold IsScoped in (twelve_bits, refl)) refl

all_free : (i : ℕ) → no_object.object i ≡ none
unfolding construct set_object allocate
all_free i = elim (Bool-cases (i == 0)) [ inl e ↦ rw e refl | inr e ↦ rw e refl ]

no_leak_example : no_object.buffer 0 ≡ none
no_leak_example = no_leak no_object 0 no_object-Reached all_free

copy_assign-values_example :
    (out : Memory) × (copy_assign 7 0 1 three_objects ≡ some out)
    × Shows out 0 4 (0 ∷ [])
    × Shows out 1 4 (0 ∷ [])
copy_assign-values_example =
    copy_assign-values 7 0 1 4 1 4 twelve_bits (0 ∷ []) (0 ∷ []) three_objects-IsOwned first_live
      (omega arith) second-Shows (omega arith) second-Shows

move_assign-values_example :
    (out : Memory) × (move_assign 0 1 three_objects ≡ some out)
    × Shows out 0 4 (0 ∷ [])
    × Shows out 1 0 []
    × Shows out 2 9 (0 ∷ 0 ∷ [])
move_assign-values_example =
    move_assign-values 0 1 4 2 9 twelve_bits (0 ∷ []) (0 ∷ 0 ∷ []) three_objects-IsOwned first_live
      (omega arith) second-Shows (omega arith) (omega arith) third-Shows

reallocate-values_example :
    (out : Bitstream) × (resize 20 (record { m_bits = 0 ∷ 0 ∷ []; m_size = 12 }) ≡ some out)
    × ((later : Memory) × (reallocate 20 0 three_objects ≡ some later)
        × Shows later 0 out.m_size out.m_bits
        × Shows later 1 4 (0 ∷ []))
reallocate-values_example =
    reallocate-values 0 12 20 1 4 (0 ∷ 0 ∷ []) (0 ∷ []) three_objects-IsOwned first-Shows
      (omega arith) (omega arith) second-Shows
