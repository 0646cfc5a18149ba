-- ===== src/Broker.antt =====
-- broker.go: the broker.
pub mod Queues
pub mod Waiters
pub mod Ops
pub mod Served
pub mod Valid
pub mod Cases
pub mod PopCases
pub mod Fifo
pub mod Sections
pub mod InOrder
mod Tests
pub mod Invariant
