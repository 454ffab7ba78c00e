-- ===== src/Axi4/Stream/Print.antt =====
-- The values that src/logic/axi4/stream/packet.cpp and rx_sequence_item.cpp print: bit vectors of
-- UVM, and what a `do_print` calls on its printer. The printer belongs to UVM: a run of `do_print`
-- is the list of those calls, in order.
pub mod Fields
pub mod Transactions
pub mod PacketPrint
pub mod ItemPrint
pub mod Lanes
pub mod Shows
pub mod Made
pub mod RoundTrip
pub mod Written
use Prim.Native.String.{String}
use logic.Base.{
  ℕ, zero, suc, ◌+◌, ◌-◌, ◌*◌, ◌/◌, ◌%◌, ◌^◌, Bool, false, Option, none, some, if◌then◌else◌, ltb,
  ◌==◌, ◌>>=◌,
}
use logic.Base.Int.{ℤ, pos, negsuc}
use logic.Bits.Digit.{digit}
use logic.Bitstream.Defs.{Bitstream}
use logic.Bitstream.Whole.{bit}
use logic.Reference.{read}
use logic.Axi4.Stream.BusIf.{set_lane}

-- `uvm_bitstream_t`, a vector of `max_bits` bits, by what stands at each index.
abbrev pub Bits : Type 0
Bits = ℕ → Bool

abbrev pub no_bits : Bits
no_bits i = false

-- `int(n)` for a size `n`.
unfoldable pub to_int : ℕ → ℤ
to_int n =
    let word = n % 2 ^ 32 in if ltb word (2 ^ 31) then pos word else negsuc (2 ^ 32 - 1 - word)

-- `UVM_HEX` and `UVM_DEC`
pub data Radix : Type 0 where
  hex dec : Radix

mutual
  pub data Call : Type 0 where
    print_string : String → String → Call
    print_time : String → ℕ → Call
    print_field : String → Bits → ℤ → Radix → Call
    print_field_int : String → ℕ → ℤ → Radix → Call
    print_object : String → Calls → Call
    print_array_header : String → ℤ → Call
    print_array_footer : Call

  pub data Calls : Type 0 where
    done : Calls
    ◌⨾◌ : Call → Calls → Calls

infixr 4 ◌⨾◌
abbrev pub decimal : String → ℕ → Call
decimal name value = print_field_int name value (negsuc 0) dec

-- `bits[index] = value` and `bits(8 * index + 7, 8 * index) = value`; UVM's vector has no other
-- bits.
module _ (max_bits : ℕ) where
  unfoldable pub set_bit : ℕ → Bool → Bits → Option Bits
  set_bit index value bits = if ltb index max_bits then some (set_lane index value bits) else none

  unfoldable pub set_byte : ℕ → ℕ → Bits → Option Bits
  set_byte index value bits =
      if ltb (8 * index + 7) max_bits
      then some (λ i. if i / 8 == index then digit value (i % 8) == 1 else bits i)
      else none

  -- `for (i = 0; i < width; ++i) value[int(i)] = bool(bits[i]);`, with `left` rounds to go.
  unfoldable pub copy_bits : Bitstream → ℕ → ℕ → Bits → Option Bits
  copy_bits s zero i value = some value
  copy_bits s (suc left) i value = do
    b ← read (bit (some 0) i) s.m_bits
    value' ← set_bit i b value
    copy_bits s left (suc i) value'

  unfoldable pub all_bits : Bitstream → Option Bits
  all_bits s = copy_bits s s.m_size 0 no_bits
