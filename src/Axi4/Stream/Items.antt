-- ===== src/Axi4/Stream/Items.antt =====
-- src/logic/axi4/stream/rx_sequence_item.cpp, tx_sequence_item.cpp and reset_sequence_item.cpp: what a
-- sequence asks of a driver, and how such items are made, copied and compared.
pub mod Compare
use logic.Base.{ℕ, Bool, true, false, Option, none, some, List, [], ◌∷◌, ◌==◌, ◌>>=◌, if◌then◌else◌}
use logic.Bitstream.Defs.{Bitstream, empty, resize, is_equal}
use logic.Range.{Range, default_range}
use logic.Range
use logic.Axi4.Stream.TdataByte.{TdataByte}
use logic.Axi4.Stream.Packet.{◌and_then◌, streams_equal, bytes_equal}

-- `rx_sequence_item::type_t`
pub data ItemType : Type 0 where
  data_item idle_item : ItemType

pub record RxItem : Type 0 where
  pub type : ItemType
  pub tid : Bitstream
  pub tdest : Bitstream
  pub tuser : List Bitstream
  pub tdata : List TdataByte
  pub idle : Range
  pub timeout : ℕ

pub record TxItem : Type 0 where
  pub tid : Bitstream
  pub tdest : Bitstream
  pub timeout : ℕ
  pub idle : Range

pub record ResetItem : Type 0 where
  pub duration : ℕ
  pub idle : ℕ

-- `TIMEOUT`
abbrev pub default_timeout : ℕ
default_timeout = 10000

-- The constructors; the one of a receiver item gives every identifier a width of one bit.
unfoldable pub default_rx_item : Option RxItem
default_rx_item = do
  tid ← resize 1 empty
  tdest ← resize 1 empty
  first ← resize 1 empty
  some (record {
    type = data_item;
    tid = tid;
    tdest = tdest;
    tuser = first ∷ [];
    tdata = [];
    idle = default_range;
    timeout = default_timeout;
  })

abbrev pub default_tx_item : TxItem
default_tx_item = record {
  tid = empty;
  tdest = empty;
  timeout = default_timeout;
  idle = default_range;
}

abbrev pub default_reset_item : ResetItem
default_reset_item = record { duration = 0; idle = 0 }

unfoldable pub item_type_eq : ItemType → ItemType → Bool
item_type_eq data_item data_item = true
item_type_eq idle_item idle_item = true
item_type_eq _ _ = false

-- `do_compare` of each; the other object is `none` if its cast fails.
unfoldable pub compare_rx : RxItem → Option RxItem → Option Bool
compare_rx item none = some false
compare_rx item (some other) =
    some (item_type_eq item.type other.type)
    and_then some (Range.is_equal item.idle other.idle)
    and_then some (item.timeout == other.timeout)
    and_then is_equal item.tid other.tid
    and_then is_equal item.tdest other.tdest
    and_then streams_equal item.tuser other.tuser
    and_then some (bytes_equal item.tdata other.tdata)

unfoldable pub compare_tx : TxItem → Option TxItem → Option Bool
compare_tx item none = some false
compare_tx item (some other) =
    some (Range.is_equal item.idle other.idle)
    and_then some (item.timeout == other.timeout)
    and_then is_equal item.tid other.tid
    and_then is_equal item.tdest other.tdest

unfoldable pub compare_reset : ResetItem → Option ResetItem → Option Bool
compare_reset item none = some false
compare_reset item (some other) =
    some (item.duration == other.duration) and_then some (item.idle == other.idle)

-- `do_copy` of each: the object that is copied into.
unfoldable pub copy_rx : RxItem → Option RxItem → RxItem
copy_rx item none = item
copy_rx item (some other) = other

unfoldable pub copy_tx : TxItem → Option TxItem → TxItem
copy_tx item none = item
copy_tx item (some other) = other

unfoldable pub copy_reset : ResetItem → Option ResetItem → ResetItem
copy_reset item none = item
copy_reset item (some other) = other
