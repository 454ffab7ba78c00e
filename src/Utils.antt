-- ===== src/Utils.antt =====
-- include/logic/utils.hpp: the type that holds so many bits of a signal, and how single bits and bytes
-- of a value of it are read and written. A value is the number of its bits; `none` is a shift by the
-- width of its type or more, or an index outside of a SystemC vector.
pub mod Laws
pub mod Fields
use mathlib.Core.Option
use logic.Base.{
  ℕ, zero, suc, ◌+◌, ◌*◌, ◌/◌, ◌%◌, ◌^◌, bit_and, bit_or, Bool, not, Option, none, some,
  if◌then◌else◌, ltb, leb, ◌==◌,
}
use logic.Bits.Digit.{digit, bit_of, replaced}
use logic.Bits.Bitwise.{not_word}

-- `bits<N>::type`: `bool`, `std::uint32_t`, `std::uint64_t` or `sc_bv<N>`; there is none for no bits.
pub data BitsType : Type 0 where
  boolean uint32 uint64 : BitsType
  sc_bv : ℕ → BitsType

unfoldable pub bits_type : ℕ → Option BitsType
bits_type n =
    if n == 0
    then none
    else if n == 1
    then some boolean
    else if leb n 32
    then some uint32
    else if leb n 64
    then some uint64
    else some (sc_bv n)

-- `lhs &= ~(mask << offset); lhs |= rhs << offset;` on a word of `w` bits.
unfoldable pub set_word : ℕ → ℕ → ℕ → ℕ → ℕ → Option ℕ
set_word w lhs offset mask rhs =
    if ltb offset w
    then some
        (bit_or (bit_and lhs (not_word w (mask * 2 ^ offset % 2 ^ w))) (rhs * 2 ^ offset % 2 ^ w))
    else none

-- The conversion to `bool`.
abbrev pub to_bool : ℕ → ℕ
to_bool n = bit_of (not (n == 0))

-- `lhs(offset + count - 1, offset) = rhs` of a SystemC vector.
unfoldable pub write_range : ℕ → ℕ → ℕ → ℕ → ℕ
write_range lhs offset rhs zero = lhs
write_range lhs offset rhs (suc count) =
    replaced (write_range lhs offset rhs count) (offset + count) (digit rhs count)

-- `set` of a byte; an arithmetic operation on `bool` is one on `int`.
unfoldable pub set_uint8 : BitsType → ℕ → ℕ → ℕ → Option ℕ
set_uint8 boolean lhs offset rhs = Option.map to_bool (set_word 32 lhs offset 1 (to_bool rhs))
set_uint8 uint32 lhs offset rhs = set_word 32 lhs offset 0xFF rhs
set_uint8 uint64 lhs offset rhs = set_word 64 lhs offset 0xFF rhs
set_uint8 (sc_bv n) lhs offset rhs =
    if ltb (offset + 7) n then some (write_range lhs offset rhs 8) else none

-- `set` of a bit.
unfoldable pub set_bool : BitsType → ℕ → ℕ → Bool → Option ℕ
set_bool boolean lhs offset rhs = Option.map to_bool (set_word 32 lhs offset 1 (bit_of rhs))
set_bool uint32 lhs offset rhs = set_word 32 lhs offset 1 (bit_of rhs)
set_bool uint64 lhs offset rhs = set_word 64 lhs offset 1 (bit_of rhs)
set_bool (sc_bv n) lhs offset rhs =
    if ltb offset n then some (replaced lhs offset (bit_of rhs)) else none

-- `lhs & (1u << offset)`, where `1u` has 32 bits whatever the type of `lhs`.
unfoldable pub test_word : ℕ → ℕ → Option Bool
test_word lhs offset = if ltb offset 32 then some (not (bit_and lhs (2 ^ offset) == 0)) else none

unfoldable pub get_bool : BitsType → ℕ → ℕ → Option Bool
get_bool boolean lhs offset = test_word lhs offset
get_bool uint32 lhs offset = test_word lhs offset
get_bool uint64 lhs offset = test_word lhs offset
get_bool (sc_bv n) lhs offset = if ltb offset n then some (digit lhs offset == 1) else none

-- `std::uint8_t(lhs >> offset)`
unfoldable pub byte_of_word : ℕ → ℕ → ℕ → Option ℕ
byte_of_word w lhs offset = if ltb offset w then some (lhs / 2 ^ offset % 256) else none

unfoldable pub get_uint8 : BitsType → ℕ → ℕ → Option ℕ
get_uint8 boolean lhs offset = byte_of_word 32 lhs offset
get_uint8 uint32 lhs offset = byte_of_word 32 lhs offset
get_uint8 uint64 lhs offset = byte_of_word 64 lhs offset
get_uint8 (sc_bv n) lhs offset = if ltb (offset + 7) n then some (lhs / 2 ^ offset % 256) else none
