-- ===== src/Axi4/Stream.antt =====
-- The AXI4-Stream verification components: bytes, packets, the bus interface, and the monitor, the
-- drivers and the scoreboard that run on its clock.
pub mod TdataByte
pub mod Packet
pub mod BusIf
pub mod SignalBus
pub mod Monitor
pub mod RxDriver
pub mod Scoreboard
pub mod TxDriver
pub mod Items
pub mod ResetDriver
pub mod Print
pub mod Link
