-- ===== src/Axi4/Stream/Print/Transactions.antt =====
-- `field::transaction` of src/logic/axi4/stream/packet.cpp: one transfer of a packet, in the form in
-- which it is printed.
use Prim.Native.String.{String}
use logic.Base.{
  ℕ, zero, suc, ◌*◌, Bool, true, false, Option, some, none, List, [], ◌∷◌, ◌>>=◌, length, leb, drop,
  if◌then◌else◌,
}
use logic.Bitstream.Defs.{Bitstream}
use logic.Axi4.Stream.TdataByte.{TdataByte, ByteType, data_byte, null_byte, position_byte, reserved}
use logic.Axi4.Stream.Print.{
  Bits, no_bits, Call, print_field, print_object, print_time, done, ◌⨾◌, hex, to_int, all_bits,
  set_bit, set_byte,
}

pub record Transaction : Type 0 where
  pub m_timestamp : ℕ
  pub m_tuser : Bits
  pub m_tuser_width : ℕ
  pub m_tkeep : Bits
  pub m_tstrb : Bits
  pub m_tdata : Bits
  pub m_tdata_bytes : ℕ

-- The `switch` on the type of a byte.
unfoldable pub tkeep_of : ByteType → Bool
tkeep_of data_byte = true
tkeep_of reserved = false
tkeep_of position_byte = true
tkeep_of null_byte = false

unfoldable pub tstrb_of : ByteType → Bool
tstrb_of data_byte = true
tstrb_of reserved = true
tstrb_of position_byte = false
tstrb_of null_byte = false

-- `it_tdata += bus_size`; an iterator past the end is undefined.
unfoldable pub advance : ℕ → List TdataByte → Option (List TdataByte)
advance bus_size tdata = if leb bus_size (length tdata) then some (drop bus_size tdata) else none

module _ (max_bits : ℕ) where
  -- One round of the loop.
  unfoldable pub set_byte_lane : ℕ → TdataByte → Transaction → Option Transaction
  set_byte_lane index byte t = do
    tkeep ← set_bit max_bits index (tkeep_of byte.m_type) t.m_tkeep
    tstrb ← set_bit max_bits index (tstrb_of byte.m_type) t.m_tstrb
    tdata ← set_byte max_bits index byte.m_data t.m_tdata
    some (record t { m_tkeep = tkeep; m_tstrb = tstrb; m_tdata = tdata })

  -- `while ((tdata_byte_begin < tdata_byte_end) && (0 != tdata_bytes--))`
  unfoldable pub set_lanes : List TdataByte → ℕ → ℕ → Transaction → Option Transaction
  set_lanes [] tdata_bytes index t = some t
  set_lanes (byte ∷ rest) zero index t = some t
  set_lanes (byte ∷ rest) (suc tdata_bytes) index t = do
    t' ← set_byte_lane index byte t
    set_lanes rest tdata_bytes (suc index) t'

  -- The constructor; `tdata` is what lies between the two iterators.
  unfoldable pub make_transaction : ℕ → Bitstream → List TdataByte → ℕ → Option Transaction
  make_transaction timestamp tuser tdata tdata_bytes = do
    value ← all_bits max_bits tuser
    set_lanes tdata tdata_bytes 0 (record {
      m_timestamp = timestamp;
      m_tuser = value;
      m_tuser_width = tuser.m_size;
      m_tkeep = no_bits;
      m_tstrb = no_bits;
      m_tdata = no_bits;
      m_tdata_bytes = tdata_bytes;
    })

  -- The objects that the loop of `packet::do_print` makes.
  unfoldable pub transactions :
      List ℕ → List Bitstream → List TdataByte → ℕ → Option (List Transaction)
  transactions [] tuser tdata bus_size = some []
  transactions (timestamp ∷ timestamps) [] tdata bus_size = none
  transactions (timestamp ∷ timestamps) (user ∷ tuser) tdata bus_size = do
    t ← make_transaction timestamp user tdata bus_size
    rest ← advance bus_size tdata
    others ← transactions timestamps tuser rest bus_size
    some (t ∷ others)

-- `transaction::do_print`
unfoldable pub print_transaction : String → Transaction → Call
print_transaction name t = print_object name (
    print_time "time" t.m_timestamp
    ⨾ print_field "tuser" t.m_tuser (to_int t.m_tuser_width) hex
    ⨾ print_field "tkeep" t.m_tkeep (to_int t.m_tdata_bytes) hex
    ⨾ print_field "tstrb" t.m_tstrb (to_int t.m_tdata_bytes) hex
    ⨾ print_field "tdata" t.m_tdata (to_int (8 * t.m_tdata_bytes)) hex
    ⨾ done)
