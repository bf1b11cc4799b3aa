-- ===== src/LiveSession.antt =====
-- Live sessions: internal/domain/live_session.go and the memory lock of
-- internal/modules/live_session/repository/memory_lock.go.
pub mod Status
pub mod Lock
pub mod Exclusion
