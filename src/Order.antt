-- ===== src/Order.antt =====
-- Orders: the deal of internal/domain/ops.go, and the memory repository and the service of
-- internal/modules/order.
pub mod Deal
pub mod Repository
pub mod Listing
pub mod Service
pub mod Query
pub mod Update
pub mod Moves
pub mod Deliveries
pub mod History
pub mod Interleaving
pub mod Access
