-- ===== src/Axi4/Stream/Packet.antt =====
-- src/logic/axi4/stream/packet.cpp: what was transferred under one pair of stream and destination
-- identifiers, and how two packets are compared.
pub mod Compare
use logic.Base.{
  ℕ, zero, suc, Bool, true, false, Option, none, some, List, [], ◌∷◌, if◌then◌else◌, ◌>>=◌,
}
use logic.Bitstream.Defs.{Bitstream, empty}
use logic.Bitstream.Defs
use logic.Axi4.Stream.TdataByte.{TdataByte}
use logic.Axi4.Stream.TdataByte

-- A time stamp is a number of time units.
pub record Packet : Type 0 where
  pub tid : Bitstream
  pub tdest : Bitstream
  pub tuser : List Bitstream
  pub tdata : List TdataByte
  pub timestamps : List ℕ
  pub bus_size : ℕ

-- The constructor; the UVM object's name is not kept.
abbrev pub default_packet : Packet
default_packet = record {
  tid = empty;
  tdest = empty;
  tuser = [];
  tdata = [];
  timestamps = [];
  bus_size = 0;
}

-- `a && b`, where a comparison may be undefined.
infixr 35 ◌and_then◌
abbrev pub ◌and_then◌ : Option Bool → Option Bool → Option Bool
a and_then b = a >>= λ status. if status then b else some false

-- `operator==` of `std::vector`: the sizes, then the elements in order.
unfoldable pub streams_equal : List Bitstream → List Bitstream → Option Bool
streams_equal [] [] = some true
streams_equal [] (y ∷ ys) = some false
streams_equal (x ∷ xs) [] = some false
streams_equal (x ∷ xs) (y ∷ ys) = Defs.is_equal x y and_then streams_equal xs ys

unfoldable pub bytes_equal : List TdataByte → List TdataByte → Bool
bytes_equal [] [] = true
bytes_equal [] (y ∷ ys) = false
bytes_equal (x ∷ xs) [] = false
bytes_equal (x ∷ xs) (y ∷ ys) =
    let rest = bytes_equal xs ys in if TdataByte.is_equal x y then rest else false

-- `do_compare`; the other object is `none` if the cast to a packet fails.
unfoldable pub do_compare : Packet → Option Packet → Option Bool
do_compare p none = some false
do_compare p (some other) =
    Defs.is_equal p.tid other.tid
    and_then Defs.is_equal p.tdest other.tdest
    and_then streams_equal p.tuser other.tuser
    and_then some (bytes_equal p.tdata other.tdata)

-- `do_copy`: the object that is copied into, whose cast may fail.
unfoldable pub do_copy : Packet → Option Packet → Packet
do_copy p none = p
do_copy p (some other) = other
