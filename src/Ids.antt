-- ===== src/Ids.antt =====
-- Identifiers: internal/infra/idgen/snowflake.go.
pub mod Bits
pub mod Snowflake
pub mod Layout
pub mod Order
pub mod Increase
pub mod Waiting
