-- ===== src/Settlement.antt =====
-- The closing of a lot: internal/modules/auction/app/hammer_service.go over the memory repositories.
pub mod Auctions
pub mod Deposits
pub mod Hammer
pub mod Release
pub mod Capture
pub mod Sale
pub mod Closing
pub mod Outcome
pub mod Pending
pub mod Draining
