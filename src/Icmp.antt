-- ===== src/Icmp.antt =====
-- The Inter-Core Message Protocol: lib/icmp and include/lib/icmp.h.
pub mod Tests
pub mod Fixtures
pub mod Scenarios
pub mod Frame
pub mod Bitmap
pub mod Inflight
pub mod Server
pub mod Thread
pub mod Exchange
pub mod Link
pub mod Uart
