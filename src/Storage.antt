-- ===== src/Storage.antt =====
-- The file-local helpers of src/logic/bitstream.cpp over raw byte buffers: sizes in bytes, block
-- copies and fills, and the masks for a partial last byte.
-- A buffer is the list of its bytes; an access outside of it, undefined in C++, is `none`.
pub mod Number
pub mod Blocks
pub mod Masks
pub mod Splice
use mathlib.Core.Option
use logic.Base.{
  ℕ, zero, suc, ◌+◌, ◌-◌, ◌*◌, ◌/◌, ◌%◌, ◌^◌, ◌<◌, bit_and, bit_or, Option, none, some, List, [],
  ◌∷◌,
}

-- `BITS` and `OFFSET`
abbrev pub bits_per_byte : ℕ
bits_per_byte = 8

abbrev pub offset : ℕ
offset = bits_per_byte - 1

-- `std::size_t` and `std::uintmax_t` have 64 bits.
abbrev pub word_mod : ℕ
word_mod = 2 ^ 64

-- `::size`: how many bytes hold that many bits; the sum wraps.
unfoldable pub size : ℕ → ℕ
size bits = (bits + offset) % word_mod / bits_per_byte

-- `::copy_n`
unfoldable pub copy_n : List ℕ → ℕ → List ℕ → Option (List ℕ)
copy_n src zero dst = some dst
copy_n [] (suc n) dst = none
copy_n (s ∷ src) (suc n) [] = none
copy_n (s ∷ src) (suc n) (d ∷ dst) = Option.map (λ rest. s ∷ rest) (copy_n src n dst)

-- `::fill_n`
unfoldable pub fill_n : List ℕ → ℕ → ℕ → Option (List ℕ)
fill_n dst zero val = some dst
fill_n [] (suc n) val = none
fill_n (d ∷ dst) (suc n) val = Option.map (λ rest. val ∷ rest) (fill_n dst n val)

-- A read and a write of the byte at an index, `bits[i] = f(bits[i])`.
unfoldable pub modify : (ℕ → ℕ) → List ℕ → ℕ → Option (List ℕ)
modify f [] i = none
modify f (b ∷ bits) zero = some (f b ∷ bits)
modify f (b ∷ bits) (suc i) = Option.map (λ rest. b ∷ rest) (modify f bits i)

-- `std::uint8_t(~x)`, where `x` is promoted to a 32-bit `int` that is not negative.
unfoldable pub complement : ℕ → ℕ
complement x = (2 ^ 32 - 1 - x) % 256

-- `std::uint8_t(~(0xFF << bits))`, used at `bits < 8`.
unfoldable pub low_mask : ℕ → ℕ
low_mask bits = complement (0xff * 2 ^ bits)

-- `byte &= ~mask; byte |= (mask & val)` with the mask of the `bits` low ones.
unfoldable pub merge : ℕ → ℕ → ℕ → ℕ
merge bits byte val =
    let mask = low_mask bits in bit_or (bit_and byte (complement mask)) (bit_and mask val)
