-- ===== src/Reference.antt =====
-- src/logic/bitstream_reference.cpp and src/logic/bitstream_const_reference.cpp: one bit of a byte
-- buffer, as a pointer to the buffer and the index of the bit. The buffer that the pointer leads to
-- is an argument of the operations; an access outside of it is `none`.
pub mod Laws
use logic.Base.{
  ℕ, ◌/◌, ◌%◌, ◌^◌, bit_and, bit_or, Bool, Option, some, List, get_elem?, ◌==◌, if◌then◌else◌,
  ◌>>=◌,
}
use logic.Storage.{bits_per_byte, modify, complement}

pub record Reference : Type 0 where
  pub m_bits : Option ℕ
  pub m_index : ℕ

-- `std::uint8_t(1 << (m_index % BITS))`
unfoldable pub mask_of : ℕ → ℕ
mask_of m_index = 2 ^ (m_index % bits_per_byte) % 256

unfoldable pub write_byte : Bool → ℕ → ℕ → ℕ
write_byte value mask byte = if value then bit_or byte mask else bit_and byte (complement mask)

-- `operator=(bool)`: the buffer after the write.
unfoldable pub write : Bool → Reference → List ℕ → Option (List ℕ)
write value r bits = modify (write_byte value (mask_of r.m_index)) bits (r.m_index / bits_per_byte)

-- `operator bool`
unfoldable pub read : Reference → List ℕ → Option Bool
read r bits = do
  byte ← get_elem? bits (r.m_index / bits_per_byte)
  some (bit_and byte (mask_of r.m_index) == mask_of r.m_index)

-- A const reference holds a reference, and only reads through it.
pub record ConstReference : Type 0 where
  pub m_reference : Reference

unfoldable pub read_const : ConstReference → List ℕ → Option Bool
read_const r bits = read r.m_reference bits
