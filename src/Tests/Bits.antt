-- ===== src/Tests/Bits.antt =====
-- References and iterators (src/logic/bitstream_reference.cpp, src/logic/bitstream_iterator.cpp) on a
-- small buffer.
use logic.Base.{ℕ, ◌≡◌, true, some, List, [], ◌∷◌, arith, if◌then◌else◌, ◌==◌, map}
use logic.Base.Int.{pos}
use logic.Storage.Number.{AreBytes}
use logic.Reference.{Reference, write, read}
use logic.Reference.Laws.{Written, write-Written, read-write}
use logic.Iterator.{Iterator}
use logic.Iterator.Traverse.{
  begin, end, rbegin, rend, walk, walk_reverse, bit_at, ascending, lagging, walk-begin-end,
  walk-rbegin-rend,
}

abbrev buffer : List ℕ
buffer = 0x0f ∷ 0x80 ∷ []

buffer-AreBytes : AreBytes buffer
buffer-AreBytes = (omega arith, (omega arith, tt))

abbrev bit_nine : Reference
bit_nine = record { m_bits = some 16; m_index = 9 }

write-Written_example : Written true 9 buffer (write true bit_nine buffer)
write-Written_example = write-Written true bit_nine buffer buffer-AreBytes (omega arith)

read-write_example :
    (out : List ℕ) × (write true bit_nine buffer ≡ some out)
    × (read (record { m_bits = some 16; m_index = 15 }) out
        ≡ (if 9 == 15 then some true else read (record { m_bits = some 16; m_index = 15 }) buffer))
read-write_example =
    read-write true 9 15 (some 16) buffer buffer-AreBytes (omega arith) (omega arith)

walk-begin-end_example :
    walk 13 (begin (some 16)) (end (some 16) 12) ≡ some (map (bit_at (some 16)) (ascending 0 12))
walk-begin-end_example = walk-begin-end (some 16) 12 (omega arith)

walk-rbegin-rend_example :
    walk_reverse 13 (rbegin (some 16) 12) (rend (some 16))
    ≡ some (map (bit_at (some 16)) (lagging 12))
walk-rbegin-rend_example = walk-rbegin-rend (some 16) 11 (omega arith)

abbrev third : Iterator
third = record { m_bits = some 16; m_index = pos 3 }

abbrev fifth : Iterator
fifth = record { m_bits = some 16; m_index = pos 5 }
