-- ===== src/Domain.antt =====
-- internal/domain: entities, state machines and pricing rules.
pub mod Error
pub mod User
pub mod Auction
pub mod Increment
pub mod Bid
