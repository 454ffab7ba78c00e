-- ===== src/Bitstream/Converted.antt =====
-- The templates of include/logic/bitstream.hpp: objects and whole numbers of a type `T` of `size_of` bytes.
use logic.Base.{ℕ, ◌*◌, ◌%◌, ◌^◌, ◌<◌, ◌≤◌, ◌≡◌, refl, Option, some, List, arith, ◌>>=◌}
use native.Mathlib.Nat.{pow-le-pow_right, mod-eq_of_lt, lt_of_lt_of_le}
use logic.Bitstream.Defs.{Bitstream, clamp, assign, assign_from, value, copy_to}
use logic.Bitstream.Valid.{IsValid}
use logic.Bitstream.Values.{value-assign}

-- `assign(src)` and `assign(src, bits)` of the bytes of an object.
unfoldable pub assign_object : ℕ → List ℕ → Bitstream → Option Bitstream
assign_object size_of src s = assign_from src (8 * size_of) s

unfoldable pub assign_object_bits : List ℕ → ℕ → Bitstream → Option Bitstream
assign_object_bits src bits s = assign_from src bits s

-- `copy(dst)` and `copy(dst, bits)`
unfoldable pub copy_object : ℕ → List ℕ → Bitstream → Option (List ℕ)
copy_object size_of dst s = copy_to dst (8 * size_of) s

unfoldable pub copy_object_bits : List ℕ → ℕ → Bitstream → Option (List ℕ)
copy_object_bits dst bits s = copy_to dst bits s

-- `operator=(T)` of an unsigned number or an enumerator, by its conversion to `std::uintmax_t`.
unfoldable pub assign_integral : ℕ → ℕ → Bitstream → Option Bitstream
assign_integral size_of val s = assign (val % 2 ^ 64) (8 * size_of) s

unfoldable pub assign_enum : ℕ → ℕ → Bitstream → Option Bitstream
assign_enum size_of val s = assign (val % 2 ^ 64) (8 * size_of) s

-- `operator=(const T&)` of an object of a class.
unfoldable pub assign_class : ℕ → List ℕ → Bitstream → Option Bitstream
assign_class size_of val s = assign_from val (8 * size_of) s

-- `operator T` of an unsigned number or an enumerator.
unfoldable pub to_integral : ℕ → Bitstream → Option ℕ
to_integral size_of s = do val ← value (8 * size_of) s; some (val % 2 ^ (8 * size_of))

unfoldable pub to_enum : ℕ → Bitstream → Option ℕ
to_enum size_of s = do val ← value (8 * size_of) s; some (val % 2 ^ (8 * size_of))

-- An unsigned number that fits into the stream is read back.
pub to_integral-assign_integral :
    (size_of val : ℕ) (s : Bitstream)
    → IsValid s
    → size_of ≤ 8
    → val < 2 ^ clamp s.m_size (8 * size_of)
    → val < 2 ^ (8 * size_of)
    → (out : Bitstream) × (assign_integral size_of val s ≡ some out)
      × (to_integral size_of out ≡ some val)
unfolding assign_integral to_integral
to_integral-assign_integral size_of val s v h fits whole =
    let (out, returns, reads) = value-assign (val % 2 ^ 64) (8 * size_of) s v small in
    (out, returns, rw (reads, modulo, mod-eq_of_lt fits, mod-eq_of_lt whole) refl)
  where
    small : clamp s.m_size (8 * size_of) ≤ 64
    small = unfold clamp in ground arith

    modulo : val % 2 ^ 64 ≡ val
    modulo = mod-eq_of_lt (lt_of_lt_of_le fits (pow-le-pow_right {n = 2} (omega arith) small))
