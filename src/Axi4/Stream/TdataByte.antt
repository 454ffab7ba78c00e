-- ===== src/Axi4/Stream/TdataByte.antt =====
-- src/logic/axi4/stream/tdata_byte.cpp: one byte of a transfer and its type.
use logic.Base.{ℕ, ◌≡◌, Bool, true, false, not, ◌&&◌, ◌||◌, ◌↔◌, arith, ltb, leb, ◌==◌, not_and}

-- `type_t`
pub data ByteType : Type 0 where
  data_byte null_byte position_byte reserved : ByteType

unfoldable pub type_eq : ByteType → ByteType → Bool
type_eq data_byte data_byte = true
type_eq null_byte null_byte = true
type_eq position_byte position_byte = true
type_eq reserved reserved = true
type_eq _ _ = false

pub record TdataByte : Type 0 where
  pub m_type : ByteType
  pub m_data : ℕ

-- The constructors.
abbrev pub default_byte : TdataByte
default_byte = record { m_type = data_byte; m_data = 0 }

unfoldable pub of_data : ℕ → TdataByte
of_data data_val = record { m_type = data_byte; m_data = data_val }

unfoldable pub of_type : ByteType → TdataByte
of_type type_val = record { m_type = type_val; m_data = 0 }

unfoldable pub of_both : ℕ → ByteType → TdataByte
of_both data_val type_val = record { m_type = type_val; m_data = data_val }

-- `operator=` of a byte, `data(data_val)` and `type(type_val)`.
unfoldable pub set_data : ℕ → TdataByte → TdataByte
set_data data_val b = record b { m_data = data_val }

unfoldable pub set_both : ℕ → ByteType → TdataByte → TdataByte
set_both data_val type_val b = record b { m_type = type_val; m_data = data_val }

unfoldable pub set_type : ByteType → TdataByte → TdataByte
set_type type_val b = record b { m_type = type_val }

-- `operator bool` and `operator!`
unfoldable pub is_nonzero : TdataByte → Bool
is_nonzero b = not (0 == b.m_data)

unfoldable pub is_zero : TdataByte → Bool
is_zero b = 0 == b.m_data

unfoldable pub is_data_byte : TdataByte → Bool
is_data_byte b = type_eq data_byte b.m_type

unfoldable pub is_null_byte : TdataByte → Bool
is_null_byte b = type_eq null_byte b.m_type

unfoldable pub is_position_byte : TdataByte → Bool
is_position_byte b = type_eq position_byte b.m_type

unfoldable pub is_reserved : TdataByte → Bool
is_reserved b = type_eq reserved b.m_type

-- The comparisons: equality looks at both fields, the orders at the data alone.
unfoldable pub is_equal : TdataByte → TdataByte → Bool
is_equal a b = a.m_data == b.m_data && type_eq a.m_type b.m_type

unfoldable pub is_not_equal : TdataByte → TdataByte → Bool
is_not_equal a b = not (a.m_data == b.m_data) || not (type_eq a.m_type b.m_type)

unfoldable pub is_less : TdataByte → TdataByte → Bool
is_less a b = ltb a.m_data b.m_data

unfoldable pub is_less_equal : TdataByte → TdataByte → Bool
is_less_equal a b = leb a.m_data b.m_data

unfoldable pub is_greater : TdataByte → TdataByte → Bool
is_greater a b = ltb b.m_data a.m_data

unfoldable pub is_greater_equal : TdataByte → TdataByte → Bool
is_greater_equal a b = leb b.m_data a.m_data

type_eq_iff : (a b : ByteType) → (type_eq a b ≡ true) ↔ (a ≡ b)
unfolding type_eq
type_eq_iff a b = ground arith

-- Two bytes compare equal exactly when data and type are the same, and `!=` is the opposite.
pub byte_equality :
    (a b : TdataByte) → ((is_equal a b ≡ true) ↔ (a ≡ b)) × (is_not_equal a b ≡ not (is_equal a b))
unfolding is_equal is_not_equal
byte_equality a b = (
  ground (arith, type_eq_iff a.m_type b.m_type),
  not_and (a.m_data == b.m_data) (type_eq a.m_type b.m_type),
)

-- Exactly one of the four type tests holds of a byte.
one_type :
    (b : TdataByte)
    → (is_data_byte b ≡ not (is_null_byte b || is_position_byte b || is_reserved b))
      × ((is_null_byte b && is_position_byte b) ≡ false)
      × ((is_null_byte b && is_reserved b) ≡ false)
      × ((is_position_byte b && is_reserved b) ≡ false)
unfolding is_data_byte is_null_byte is_position_byte is_reserved type_eq
one_type b = ground arith
