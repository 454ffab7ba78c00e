-- ===== src/Bitstream.antt =====
-- src/logic/bitstream.cpp: a string of bits over an owned byte buffer. The buffer is the list of its
-- bytes (the null pointer of an empty stream is the empty list); `none` is an access outside of it.
pub mod Defs
pub mod Valid
pub mod Words
pub mod Values
pub mod Whole
pub mod Equal
pub mod Resize
pub mod Raw
pub mod Flags
pub mod Converted
pub mod Owner
unfoldable pub use Defs.*
pub use Valid.*
