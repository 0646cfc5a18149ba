-- ===== src/Stress.antt =====
-- stress.go: the load generator.
pub mod Payload
pub mod Csv
pub mod Config
pub mod Counts
pub mod Workers
pub mod Report
pub mod Sums
pub mod Totals
mod Tests
