-- ===== src/Tests.antt =====
-- Runs of the model at concrete inputs.
mod Streams
mod Bits
mod Driver
mod Bytes
mod Ranges
mod Options
mod Board
mod Asked
mod Printing
mod Signals
mod Printed
mod Sequences
mod Owners
mod Resets
mod Registered
