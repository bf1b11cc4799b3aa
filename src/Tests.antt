-- ===== src/Tests.antt =====
-- Concrete runs of the modelled code, and each result at an input that meets its hypotheses.
mod Data
mod Pricing
mod Bidding
mod Orders
mod Ids
mod Access
mod LiveSession
mod Pending
mod Stored
mod Cached
mod Settled
mod Drained
