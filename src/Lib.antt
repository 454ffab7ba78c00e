-- ===== src/Lib.antt =====
-- A model of the C++ part of the Logic library: the bit streams that carry values between SystemC and
-- a test bench, and the AXI4-Stream components that drive, observe and compare traffic on a bus.
--
-- The parts, by the files that model them:
-- * Storage (src/logic/bitstream.cpp, the functions at the top): sizes in bytes, block copies and
--   fills, and the masked write of a partial byte. A buffer is the list of its bytes, and an access
--   outside of it, undefined in C++, is `none`, so that a theorem that an operation returns `some`
--   shows that it stays inside. Storage.Number reads a buffer as one number, lowest byte first, and
--   the theorems about streams are about that number.
-- * Bitstream (src/logic/bitstream.cpp): the class `bitstream`; each method is a function from the
--   object before to the object after. IsValid says that the buffer is as long as the width needs.
--   Bitstream.Owner has the constructors, the assignments, `resize` and the destructor on a heap of
--   objects that point to buffers, where a pointer to a deleted buffer is an access outside; its
--   Lifetimes is a relation of the memories that programs reach. Bitstream.Converted has the templates
--   of include/logic/bitstream.hpp for whole numbers and for objects as their bytes.
-- * Reference, Iterator (src/logic/bitstream_reference.cpp, src/logic/bitstream_iterator.cpp and the
--   `const` forms of both): one bit of a buffer, and the random access iterator over bits with a
--   signed index. Iterator.Traverse walks from `begin` to `end` and from `rbegin` to `rend`; the
--   walks have fuel, and the theorems give the fuel that is enough, one or two more than the bits.
-- * Range (src/logic/range.cpp): an inclusive range; Range.Config is how it is kept in the UVM
--   configuration database, a parameter with the laws of a store.
-- * Axi4.Stream.TdataByte, Axi4.Stream.Packet (src/logic/axi4/stream/tdata_byte.cpp, packet.cpp): the
--   bytes of a transfer with their types, and packets with the comparison that a scoreboard uses.
-- * Axi4.Stream.Items (src/logic/axi4/stream/rx_sequence_item.cpp, tx_sequence_item.cpp,
--   reset_sequence_item.cpp): what a sequence asks of a driver.
-- * Axi4.Stream.BusIf (include/logic/axi4/stream/bus_if_base.hpp): the signals of a bus.
-- * Axi4.Stream.Monitor (src/logic/axi4/stream/monitor.cpp): `run_phase` as a function of what the bus
--   shows at each rising edge of the clock, with the `std::map` of open packets.
-- * Axi4.Stream.RxDriver (src/logic/axi4/stream/rx_driver.cpp): `data_transfer` as a recursion on what
--   the receiver and the reset do at each rising edge, and RxDriver.RunPhase `run_phase` over the items
--   that the sequencer hands over. The random numbers are a function of how many were drawn, and what a
--   bus does to the width of an identifier is a parameter. Progress and Finishes give the number of
--   edges that is enough.
-- * Axi4.Stream.TxDriver (src/logic/axi4/stream/tx_driver.cpp): `transfer`, which answers one packet,
--   in the same way; a written `tready` shows at the next edge.
-- * Axi4.Stream.ResetDriver (src/logic/axi4/stream/reset_driver.cpp): what the reset shows while items
--   are served.
-- * Axi4.Stream.Scoreboard (src/logic/axi4/stream/scoreboard.cpp): the verdict over two queues.
-- * CommandLine (src/logic/command_line.cpp, command_line_argument.cpp): the options of the simulator;
--   the calls of UVM are requests, in order, and an exception is a value. CommandLine.Runs says what the
--   arguments mean.
-- * Axi4.Stream.Link puts driver and monitor on one bus; Link.Sequence does so for a whole
--   sequence, of which Link.Adds is one item.
-- * Axi4.Stream.Print (`do_print` of packet.cpp and of the items): the calls on UVM's printer, in
--   order, on printed vectors of a fixed width. Print.Shows is how a printer reads those calls;
--   Print.Made is one of its transactions.
-- * Utils (include/logic/utils.hpp) and Axi4.Stream.SignalBus (include/logic/axi4/stream/bus_if.hpp,
--   src/logic/axi4/stream/bus_if_base.cpp): the fields of signals of a type that depends on their
--   width, and the bus over such signals. A written value shows after the next update. SignalBus.Shown
--   relates this bus to the abstract one of BusIf that the drivers and the monitor use.
-- * Json (src/logic/printer/json.cpp): the printer that turns UVM's rows into JSON; its mutual calls
--   have fuel, one more than the rows, as each turn takes one. Json.Tree is the text of a tree;
--   Json.Levels and Json.Turn say what the rows of a tree make one turn of the loop do. `std::stoi` is
--   a parameter.
-- * Factory (src/logic/gtest/factory.cpp): the registry of the test objects; to run a constructor is a
--   parameter.
-- * Base and Bits hold what the parts share: tests on numbers, lists, integers, and the bitwise
--   operations on bytes as arithmetic. Tests runs the model on concrete inputs.
--
-- Widths: `std::size_t` and `std::uintmax_t` have 64 bits, and a sum that wraps is written out; a
-- `std::ptrdiff_t` index is unbounded, since its overflow is undefined. The counters of the drivers are
-- unbounded too: they count edges and bytes of an item in memory.
--
-- Not modelled: the phases that create and connect UVM objects, the sequences that only draw random
-- items and start one another, the `run_phase` loop of the transmitter driver, casts of a
-- buffer to an object of a class, signed numbers in the templates of bitstream.hpp, packing, the trace
-- files, and the SystemVerilog sources.
pub mod Base
pub mod Bits
pub mod Storage
pub mod Bitstream
pub mod Utils
pub mod Reference
pub mod Iterator
pub mod Range
pub mod Axi4
pub mod CommandLine
pub mod Json
pub mod Factory
mod Tests
