-- ===== src/Realtime.antt =====
-- The realtime store of internal/infra/realtime/memory.go. The store's mutex makes each operation one
-- step, so an operation is a function from the old state to the new one. `clock` is what time.Now()
-- gives where the code asks for it.
pub mod Entry
pub mod PlaceBid
pub mod Hammer
pub mod Invariant
pub mod Store
pub mod Cap
