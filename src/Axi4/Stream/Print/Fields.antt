-- ===== src/Axi4/Stream/Print/Fields.antt =====
-- The printed objects that src/logic/axi4/stream/packet.cpp, rx_sequence_item.cpp and
-- tx_sequence_item.cpp have in common: widths, values, and ranges.
use Prim.Native.String.{String}
use logic.Base.{ℕ, Option, some, ◌>>=◌}
use logic.Bitstream.Defs.{Bitstream}
use logic.Range.{Range}
use logic.Axi4.Stream.Print.{
  Call, print_field, print_object, done, ◌⨾◌, decimal, hex, to_int, all_bits,
}

-- `field::width`
unfoldable pub print_width : String → ℕ → Call
print_width name value = print_object name (decimal "width" value ⨾ done)

-- `field::idle`
unfoldable pub print_idle : String → Range → Call
print_idle name idle =
    print_object name (decimal "min" idle.m_min ⨾ decimal "max" idle.m_max ⨾ done)

module _ (max_bits : ℕ) where
  -- `field::width_value`
  unfoldable pub print_width_value : String → Bitstream → Option Call
  print_width_value name bits = do
    value ← all_bits max_bits bits
    some (
        print_object name
          (decimal "width" bits.m_size ⨾ print_field "value" value (to_int bits.m_size) hex ⨾ done))
