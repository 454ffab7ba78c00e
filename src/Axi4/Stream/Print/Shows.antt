-- ===== src/Axi4/Stream/Print/Shows.antt =====
-- How the calls of `packet::do_print` of src/logic/axi4/stream/packet.cpp are read: what a printer that
-- gets them is told of a packet, by the names, bits and sizes in the calls alone.
use Prim.Native.String.{String}
use logic.Base.{
  ℕ, zero, suc, ◌+◌, ◌*◌, ◌-◌, ◌/◌, ◌%◌, ◌^◌, ◌<◌, ◌≡◌, arith, List, [], ◌∷◌, ◌++◌, map, take, drop,
  length, ltb, Bool-cases, inl, inr, some,
}
use logic.Base.Int.{ℤ, pos, negsuc}
use logic.Storage.Number.{number}
use logic.Bitstream.Defs.{Bitstream}
use logic.Axi4.Stream.TdataByte.{TdataByte}
use logic.Axi4.Stream.Packet.{Packet}
use logic.Axi4.Stream.Print.{
  Bits, Call, Calls, print_time, print_object, print_field, print_field_int, print_array_header,
  print_array_footer, done, ◌⨾◌, hex, dec, to_int,
}
use logic.Axi4.Stream.Print.PacketPrint.{print_packet}
use logic.Axi4.Stream.Print.Lanes.{bits_value, lane_byte}

-- The number that an `int` of 32 bits has for a size: the one that differs from it by a multiple of
-- 2 to the 32.
pub data IsInt (n : ℕ) : ℤ → Type 0 where
  is_pos : (wraps w : ℕ) → n ≡ wraps * 2 ^ 32 + w → w < 2 ^ 31 → IsInt n (pos w)
  is_neg : (wraps w : ℕ) → n + suc w ≡ wraps * 2 ^ 32 → w < 2 ^ 31 → IsInt n (negsuc w)

pub to_int-IsInt : (n : ℕ) → IsInt n (to_int n)
unfolding to_int
to_int-IsInt n = elim (Bool-cases (ltb (n % 2 ^ 32) (2 ^ 31))) [
  | inl e ↦ rw e (is_pos (n / 2 ^ 32) (n % 2 ^ 32) (omega arith) (ground arith))
  | inr e ↦ rw e (is_neg (n / 2 ^ 32 + 1) (2 ^ 32 - 1 - n % 2 ^ 32) (ground arith) (ground arith))
]

-- The number of a stream.
abbrev pub held : Bitstream → ℕ
held s = number s.m_bits % 2 ^ s.m_size

-- The bytes in the lanes from `i` on, `left` of them.
unfoldable pub read_lanes : Bits → Bits → Bits → ℕ → ℕ → List TdataByte
read_lanes tkeep tstrb tdata i zero = []
read_lanes tkeep tstrb tdata i (suc left) =
    lane_byte tkeep tstrb tdata i ∷ read_lanes tkeep tstrb tdata (suc i) left

-- The width of a signal.
abbrev pub width_call : String → ℕ → Call
width_call name n = print_object name (print_field_int "width" n (negsuc 0) dec ⨾ done)

-- An identifier: its width, and a vector of that size with its number.
pub record ShowsId (name : String) (s : Bitstream) (call : Call) : Type 0 where
  pub vector : Bits
  pub vector_size : ℤ
  pub is_call :
      call
      ≡ print_object name (
          print_field_int "width" s.m_size (negsuc 0) dec
          ⨾ print_field "value" vector vector_size hex
          ⨾ done)
  pub is_size : IsInt s.m_size vector_size
  pub holds : bits_value s.m_size vector ≡ held s

-- A transfer: the time, a vector of the size of `tuser` with its number, vectors of one bit for each
-- lane for `tkeep` and `tstrb` and one of eight for `tdata`, from which the bytes are read.
pub record ShowsTransfer (n time : ℕ) (user : Bitstream) (bytes : List TdataByte) (call : Call)
    : Type 0 where
  pub tuser : Bits
  pub tkeep : Bits
  pub tstrb : Bits
  pub tdata : Bits
  pub user_size : ℤ
  pub lanes : ℤ
  pub bits : ℤ
  pub is_call :
      call
      ≡ print_object "item" (
          print_time "time" time
          ⨾ print_field "tuser" tuser user_size hex
          ⨾ print_field "tkeep" tkeep lanes hex
          ⨾ print_field "tstrb" tstrb lanes hex
          ⨾ print_field "tdata" tdata bits hex
          ⨾ done)
  pub is_user_size : IsInt user.m_size user_size
  pub is_lanes : IsInt n lanes
  pub is_bits : IsInt (8 * n) bits
  pub holds : bits_value user.m_size tuser ≡ held user
  pub shown : read_lanes tkeep tstrb tdata 0 n ≡ bytes

-- The transfers, each with the next `n` bytes, and the end of the array.
pub data ShowsTransfers (n : ℕ) : List ℕ → List Bitstream → List TdataByte → Calls → Type 0 where
  no_more : ShowsTransfers n [] [] [] (print_array_footer ⨾ done)
  one_more :
      {time : ℕ} {user : Bitstream} {times : List ℕ} {users : List Bitstream}
      {tdata : List TdataByte} {call : Call} {calls : Calls}
      → ShowsTransfer n time user (take n tdata) call
      → ShowsTransfers n times users (drop n tdata) calls
      → ShowsTransfers n (time ∷ times) (user ∷ users) tdata (call ⨾ calls)

-- A packet; the width of `tuser` is that of its first value, or 0.
pub record Shown (max_bits : ℕ) (p : Packet) : Type 0 where
  pub tid : Call
  pub tdest : Call
  pub user_width : ℕ
  pub count : ℤ
  pub items : Calls
  pub returns :
      print_packet max_bits p
      ≡ some (
          tid
          ⨾ tdest
          ⨾ width_call "tuser" user_width
          ⨾ width_call "tkeep" p.bus_size
          ⨾ width_call "tstrb" p.bus_size
          ⨾ width_call "tdata" (8 * p.bus_size)
          ⨾ print_array_header "transaction" count
          ⨾ items)
  pub tid_shown : ShowsId "tid" p.tid tid
  pub tdest_shown : ShowsId "tdest" p.tdest tdest
  pub first_user : take 1 (map (λ s. s.m_size) p.tuser ++ 0 ∷ []) ≡ user_width ∷ []
  pub is_count : IsInt (length p.timestamps) count
  pub transfers : ShowsTransfers p.bus_size p.timestamps p.tuser p.tdata items
