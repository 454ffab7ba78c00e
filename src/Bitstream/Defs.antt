-- ===== src/Bitstream/Defs.antt =====
-- The state and the operations of `logic::bitstream` that act on one object.
use logic.Base.{
  ℕ, zero, suc, ◌+◌, ◌-◌, ◌*◌, ◌/◌, ◌%◌, ◌^◌, bit_and, bit_or, Bool, true, false, not, Option, none,
  some, List, [], ◌∷◌, drop, replicate, min, max, leb, ltb, ◌==◌, if◌then◌else◌, ◌>>=◌,
}
use logic.Storage.{bits_per_byte, word_mod, size, copy_n, fill_n, modify, low_mask, merge}

pub record Bitstream : Type 0 where
  pub m_bits : List ℕ
  pub m_size : ℕ

-- `bitstream()` and `bitstream(n)`
abbrev pub empty : Bitstream
empty = record { m_bits = []; m_size = 0 }

unfoldable pub make : ℕ → Bitstream
make n = record { m_bits = replicate (size n) 0; m_size = n }

-- `bitstream(const bitstream&)`; the new buffer holds any bytes before the copy.
unfoldable pub copy_of : ℕ → Bitstream → Option Bitstream
copy_of garbage other = do
  bits ← copy_n other.m_bits (size other.m_size) (replicate (size other.m_size) garbage)
  some (record { m_bits = bits; m_size = other.m_size })

-- `bitstream(bitstream&&)`: the new object and what is left of the other.
unfoldable pub move_of : Bitstream → Bitstream × Bitstream
move_of other = (other, empty)

unfoldable pub resize : ℕ → Bitstream → Option Bitstream
resize val s = if s.m_size == val then some s else do
  bits ← copy_n s.m_bits (size (min s.m_size val)) (replicate (size val) 0)
  some (record { m_bits = bits; m_size = val })

unfoldable pub clear : Bitstream → Option Bitstream
clear s = do bits ← fill_n s.m_bits (size s.m_size) 0; some (record s { m_bits = bits })

-- `if (m_size < bits) bits = m_size;`
unfoldable pub clamp : ℕ → ℕ → ℕ
clamp m_size bits = if ltb m_size bits then m_size else bits

-- The rest of `assign(val, bits)`, where the pointer `byte` is the buffer from it on.
unfoldable pub assign_loop : List ℕ → ℕ → ℕ → Option (List ℕ)
assign_loop [] val bits = if bits == 0 then some [] else none
assign_loop (b ∷ byte) val bits =
    if leb 8 bits
    then (do rest ← assign_loop byte (val / 2 ^ 8) (bits - 8); some ((val % 256) ∷ rest))
    else if bits == 0
    then some (b ∷ byte)
    else some (merge bits b (val % 256) ∷ byte)

unfoldable pub assign : ℕ → ℕ → Bitstream → Option Bitstream
assign val bits s = do
  stored ← assign_loop s.m_bits val (clamp s.m_size bits)
  some (record s { m_bits = stored })

-- The rest of `value(bits)`; a shift of a 64-bit value by 64 or more is undefined.
unfoldable pub value_loop : List ℕ → ℕ → ℕ → ℕ → Option ℕ
value_loop [] shift val bits = if bits == 0 then some val else none
value_loop (b ∷ byte) shift val bits =
    if bits == 0
    then some val
    else if leb 64 shift
    then none
    else if leb 8 bits
    then value_loop byte (shift + 8) (bit_or val (b * 2 ^ shift % word_mod)) (bits - 8)
    else some (bit_or val (bit_and (low_mask bits) b * 2 ^ shift % word_mod))

unfoldable pub value : ℕ → Bitstream → Option ℕ
value bits s = value_loop s.m_bits 0 0 (clamp s.m_size bits)

-- `assign(src, bits)` and `copy(dst, bits)` from and to raw memory share their body: whole bytes
-- first, then the bits left over, from the first byte of the source into that of the destination.
unfoldable pub tail_bits : List ℕ → ℕ → List ℕ → Option (List ℕ)
tail_bits src zero whole = some whole
tail_bits [] (suc rest) whole = none
tail_bits (first ∷ src) (suc rest) whole = modify (λ byte. merge (suc rest) byte first) whole 0

unfoldable pub transfer : List ℕ → List ℕ → ℕ → Option (List ℕ)
transfer src dst bits = do
  whole ← copy_n src (bits / bits_per_byte) dst
  tail_bits src (bits % bits_per_byte) whole

unfoldable pub assign_from : List ℕ → ℕ → Bitstream → Option Bitstream
assign_from src bits s = do
  stored ← transfer src s.m_bits (clamp s.m_size bits)
  some (record s { m_bits = stored })

unfoldable pub copy_to : List ℕ → ℕ → Bitstream → Option (List ℕ)
copy_to dst bits s = transfer s.m_bits dst (clamp s.m_size bits)

-- `operator=(bool)` and `operator bool`
unfoldable pub set_bool : Bool → Bitstream → Option Bitstream
set_bool val s =
    if ltb 0 s.m_size
    then (do
      bits ← modify (λ byte. if val then bit_or byte 0x01 else bit_and byte 0xFE) s.m_bits 0
      some (record s { m_bits = bits }))
    else some s

unfoldable pub first_bit : List ℕ → Option Bool
first_bit [] = none
first_bit (byte ∷ bits) = some (0x01 == bit_and byte 0x01)

unfoldable pub to_bool : Bitstream → Option Bool
to_bool s = if ltb 0 s.m_size then first_bit s.m_bits else some false

-- `std::equal` over `n` bytes, and `std::all_of` zero over the next ones.
unfoldable pub equal : List ℕ → ℕ → List ℕ → Option Bool
equal xs zero ys = some true
equal [] (suc n) ys = none
equal (x ∷ xs) (suc n) [] = none
equal (x ∷ xs) (suc n) (y ∷ ys) = let rest = equal xs n ys in if x == y then rest else some false

unfoldable pub all_zero : List ℕ → ℕ → Option Bool
all_zero bits zero = some true
all_zero [] (suc n) = none
all_zero (x ∷ bits) (suc n) = let rest = all_zero bits n in if 0 == x then rest else some false

unfoldable pub is_equal : Bitstream → Bitstream → Option Bool
is_equal s other = do
  let bytes = size (min s.m_size other.m_size)
  result ← equal s.m_bits bytes other.m_bits
  let it = if ltb s.m_size other.m_size then other.m_bits else s.m_bits
  let total_bytes = size (max s.m_size other.m_size)
  if result then all_zero (drop bytes it) (total_bytes - bytes) else some false

unfoldable pub is_not_equal : Bitstream → Bitstream → Option Bool
is_not_equal s other = do result ← is_equal s other; some (not result)

-- `operator<` is not implemented in the source, and the other orders are made of it.
unfoldable pub is_less : Bitstream → Bitstream → Bool
is_less s other = false

unfoldable pub is_greater : Bitstream → Bitstream → Bool
is_greater s other = is_less other s

unfoldable pub is_less_equal : Bitstream → Bitstream → Bool
is_less_equal s other = not (is_less other s)

unfoldable pub is_greater_equal : Bitstream → Bitstream → Bool
is_greater_equal s other = not (is_less s other)
