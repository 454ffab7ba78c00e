-- ===== src/Axi4/Stream/Print/ItemPrint.antt =====
-- `do_print` of the items in src/logic/axi4/stream/rx_sequence_item.cpp, tx_sequence_item.cpp and
-- reset_sequence_item.cpp.
use Prim.Native.String.{String}
use logic.Base.{ℕ, Option, some, List, [], ◌∷◌, ◌>>=◌, length}
use logic.Base.Int.{pos}
use logic.Bitstream.Defs.{Bitstream}
use logic.Axi4.Stream.TdataByte.{TdataByte, ByteType, data_byte, null_byte, position_byte, reserved}
use logic.Axi4.Stream.Items.{RxItem, TxItem, ResetItem, ItemType, data_item, idle_item}
use logic.Axi4.Stream.Print.{
  Bits, no_bits, Call, Calls, done, ◌⨾◌, to_int, hex, dec, decimal, copy_bits, print_string,
  print_field, print_field_int, print_object, print_array_header, print_array_footer,
}
use logic.Axi4.Stream.Print.Fields.{print_idle, print_width_value}
use logic.Axi4.Stream.Print.PacketPrint.{first_width}

-- `field::tdata`
unfoldable pub type_name : ByteType → String
type_name data_byte = "data"
type_name position_byte = "position"
type_name reserved = "reserved"
type_name null_byte = "null"

unfoldable pub print_tdata : TdataByte → Call
print_tdata byte = print_object "item" (
    print_string "type" (type_name byte.m_type)
    ⨾ print_field_int "value" byte.m_data (pos 8) hex
    ⨾ done)

unfoldable pub print_bytes : List TdataByte → Calls
print_bytes [] = print_array_footer ⨾ done
print_bytes (byte ∷ rest) = print_tdata byte ⨾ print_bytes rest

-- The values of `field::tuser`: of every stream as many bits as the first one has.
unfoldable pub user_values : ℕ → ℕ → List Bitstream → Option (List Bits)
user_values max_bits width [] = some []
user_values max_bits width (tuser ∷ rest) = do
  value ← copy_bits max_bits tuser width 0 no_bits
  others ← user_values max_bits width rest
  some (value ∷ others)

unfoldable pub print_values : ℕ → List Bits → Calls
print_values width [] = print_array_footer ⨾ done
print_values width (value ∷ rest) =
    print_field "value" value (to_int width) hex ⨾ print_values width rest

-- `field::tuser::do_print`; a single value is printed without an array.
unfoldable pub print_user_values : ℕ → List Bits → Calls
print_user_values width (value ∷ []) = print_field "value" value (to_int width) hex ⨾ done
print_user_values width values =
    print_array_header "value" (to_int (length values)) ⨾ print_values width values

unfoldable pub print_tuser : ℕ → List Bitstream → Option Call
print_tuser max_bits tuser = do
  let width = first_width tuser
  values ← user_values max_bits width tuser
  some (print_object "tuser" (decimal "width" width ⨾ print_user_values width values))

unfoldable pub item_type_name : ItemType → String
item_type_name data_item = "data"
item_type_name idle_item = "idle"

unfoldable pub print_rx_item : ℕ → RxItem → Option Calls
print_rx_item max_bits item = do
  tid ← print_width_value max_bits "tid" item.tid
  tdest ← print_width_value max_bits "tdest" item.tdest
  tuser ← print_tuser max_bits item.tuser
  some (
      print_string "type" (item_type_name item.type)
      ⨾ decimal "timeout" item.timeout
      ⨾ print_idle "idle" item.idle
      ⨾ tid
      ⨾ tdest
      ⨾ tuser
      ⨾ print_array_header "tdata" (to_int (length item.tdata))
      ⨾ print_bytes item.tdata)

unfoldable pub print_tx_item : ℕ → TxItem → Option Calls
print_tx_item max_bits item = do
  tid ← print_width_value max_bits "tid" item.tid
  tdest ← print_width_value max_bits "tdest" item.tdest
  some (decimal "timeout" item.timeout ⨾ print_idle "idle" item.idle ⨾ tid ⨾ tdest ⨾ done)

-- The widths are `8 * sizeof(std::size_t)`.
unfoldable pub print_reset_item : ResetItem → Calls
print_reset_item item =
    print_field_int "duration" item.duration (pos 64) dec
    ⨾ print_field_int "idle" item.idle (pos 64) dec
    ⨾ done
