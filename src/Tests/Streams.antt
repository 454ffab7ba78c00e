-- ===== src/Tests/Streams.antt =====
-- `logic::bitstream` (src/logic/bitstream.cpp) on small streams.
use logic.Base.{ℕ, ◌%◌, ◌^◌, ◌≡◌, some, List, [], ◌∷◌, arith, ◌==◌}
use logic.Storage.Number.{AreBytes, number}
use logic.Bitstream.Defs.{Bitstream, clamp, assign, value, assign_from, copy_to, is_equal}
use logic.Bitstream.Valid.{IsValid}
use logic.Bitstream.Words.{Stored, Assigned, assign-Assigned}
use logic.Bitstream.Values.{value_lem, value-assign}
use logic.Bitstream.Equal.{is_equal_lem}
use logic.Bitstream.Resize.{Resized, resize-Resized}
use logic.Bitstream.Raw.{Loaded, arriving, assign_from-Loaded, copy_to-Stored}

-- Twelve bits in two bytes.
abbrev twelve : Bitstream
twelve = record { m_bits = 0x5a ∷ 0x0c ∷ []; m_size = 12 }

twelve-IsValid : IsValid twelve
twelve-IsValid = record {
  fits = omega arith;
  allocated = omega arith;
  are_bytes = (omega arith, (omega arith, tt));
}

-- Four bits in one byte.
abbrev four : Bitstream
four = record { m_bits = 0x0a ∷ []; m_size = 4 }

four-IsValid : IsValid four
four-IsValid = record { fits = omega arith; allocated = omega arith; are_bytes = (omega arith, tt) }

abbrev memory : List ℕ
memory = 0x34 ∷ 0x12 ∷ 0xff ∷ []

memory-AreBytes : AreBytes memory
memory-AreBytes = (omega arith, (omega arith, (omega arith, tt)))

value-assign_example :
    (t : Bitstream) × (assign 0x7ff 10 twelve ≡ some t)
    × (value 10 t ≡ some (0x7ff % 2 ^ clamp 12 10))
value-assign_example = value-assign 0x7ff 10 twelve twelve-IsValid (unfold clamp in omega arith)

assign-Assigned_example : Assigned 0x7ff (clamp 12 10) twelve (assign 0x7ff 10 twelve)
assign-Assigned_example = assign-Assigned 0x7ff 10 twelve twelve-IsValid

value_lem_example : value 10 twelve ≡ some (number (0x5a ∷ 0x0c ∷ []) % 2 ^ clamp 12 10)
value_lem_example = value_lem 10 twelve twelve-IsValid (unfold clamp in omega arith)

is_equal_lem_example : is_equal twelve four ≡ some (number (0x5a ∷ 0x0c ∷ []) == number (0x0a ∷ []))
is_equal_lem_example = is_equal_lem twelve four twelve-IsValid four-IsValid

resize-Resized_example : Resized twelve 20
resize-Resized_example = resize-Resized twelve 20 twelve-IsValid (omega arith)

assign_from-Loaded_example : Loaded memory (clamp 12 24) twelve (assign_from memory 24 twelve)
assign_from-Loaded_example =
    assign_from-Loaded memory 24 twelve twelve-IsValid memory-AreBytes (unfold clamp in omega arith)

copy_to-Stored_example :
    Stored memory (number (0x5a ∷ 0x0c ∷ [])) (arriving (clamp 12 12)) (copy_to memory 12 twelve)
copy_to-Stored_example =
    copy_to-Stored memory 12 twelve twelve-IsValid memory-AreBytes (unfold clamp in omega arith)
