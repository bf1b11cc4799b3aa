-- ===== src/Lib.antt =====
-- The rules of the live-auction backend: which bids an auction accepts, how it ends and who wins,
-- how a hammer becomes an order and what happens to the deposits, how an order is paid and delivered,
-- how identifiers are made, which bids are in flight, what the first-level cache answers, and which lot
-- of a live session is on auction.
--
-- The parts, each with its file and the code that it models (paths from the repository's root):
--
-- Prelude       Go's int64 (wrapping modulo 2 ^ 64), text, maps as association lists, time.Time as the
--               nanoseconds since year 1. Shared by all parts.
-- Domain        internal/domain. Error: the error values of user.go, and a result type. Auction:
--               auction.go, with the statuses and CanTransitionAuction. Increment: increment_rule.go,
--               with the ladder of steps, ValidateAuctionPricing and ValidateBidPrice. Bid: the
--               records of auction.go that the realtime store exchanges. User: roles of user.go.
-- Realtime      internal/infra/realtime/memory.go. Entry: what the store keeps of one auction, with
--               InitAuction, MarkEnrollment, ResetAuctionParticipation. PlaceBid and Hammer: those two
--               handlers; they call Domain.Increment for the price and Domain.Auction for the end.
--               Hammer/Again: what a kept hammer result means for the operations behind it.
--               Invariant: any sequence of operations on one auction. The store's mutex makes each
--               operation one step. Store: the auctions by their ids, and TopN; Store/Steps takes what
--               holds of one auction over to the store.
-- Order         internal/domain/ops.go and internal/modules/order. Deal: the order and its MarkPaid,
--               MarkTimeout, MarkShipped, MarkReceived. Repository and Listing: the memory repository.
--               Service and Query: Pay, Ship, Receive, the timeout worker, Get, List, Mine, over a
--               transaction manager that runs its body. A body takes the order that it has read as
--               an argument, so that History can put other operations between its read and its
--               write. Update, Moves, Deliveries: what one body does; Interleaving: sequences of
--               them. Access: who sees which orders.
-- Ids           internal/infra/idgen/snowflake.go. The clock is a function from the number of readings
--               to the second that it answers.
-- Async         internal/transport/ws/bid_async.go and internal/modules/auction/app/hammer_barrier.go.
--               Coordinator: the bids in flight of BidAsyncCoordinator. Counting, Admission and Steps:
--               its counts and marks along any operations; Release: disconnects and resends. Barrier:
--               the gate and WaitDrain, whose ticks and what they find are a list; Drain: its answers.
--               WaitDrain asks the coordinator of Async for the bids in flight.
-- Cache         internal/infra/cache/l1.go. L1: the list with handles for its elements, and the index.
--               Agreement: these two agree. Recency: what the cache promises, on entries alone;
--               Refinement and Runs: that the code does it.
-- Settlement    internal/modules/auction/app/hammer_service.go: what a hammer does with the verdict of
--               the realtime store. Auctions and Deposits: the memory repositories; orders are those of
--               Order. Hammer: hammerInternal with its transaction. Release, Capture, Sale, Closing:
--               what each step leaves; Outcome: the whole. Pending: BeginHammerPending and
--               hammerWithDrain, over the gate and the barrier of Async; Draining: what they leave. The
--               id generator, the bid records and the JSON of the snapshot are answers that the caller
--               of a definition gives.
-- LiveSession   internal/domain/live_session.go and memory_lock.go of
--               internal/modules/live_session/repository. Status: the life cycle. Lock: the lock that
--               lets one lot of a session be on auction. Exclusion: operations of others on it.
-- Tests         concrete runs.
--
-- A Go error result is an Option (nil is none) or a Result. A method that changes its receiver returns
-- the new value, with its result. time.Now is an argument. waitUntil recurses on fuel, the number of
-- readings of the clock that it may make; Ids/Waiting says how much is enough. All other recursion is
-- structural. Prices stay integers of 64 bits, and a theorem that needs a sum not to wrap says so.
--
-- Not modelled: the Redis, MySQL and Kafka back ends, HTTP, MCP and WebSocket transport, the AI, speech
-- and storage clients, metrics, configuration, the choice of Hammer between hammerInternal and
-- hammerWithDrain, and the other services above the realtime store (bid, live session, deposit, risk).
mod Prelude
pub mod Domain
pub mod Realtime
pub mod Order
pub mod Ids
pub mod LiveSession
pub mod Async
pub mod Cache
pub mod Settlement
mod Tests
