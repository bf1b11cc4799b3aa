-- ===== src/Async.antt =====
-- Asynchronous bids and the drain before a hammer: internal/transport/ws/bid_async.go and
-- internal/modules/auction/app/hammer_barrier.go.
pub mod Coordinator
pub mod Counting
pub mod Admission
pub mod Steps
pub mod Release
pub mod Barrier
pub mod Drain
