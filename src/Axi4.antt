-- ===== src/Axi4.antt =====
-- The AXI4 part of the C++ library: include/logic/axi4 and src/logic/axi4.
pub mod Stream
