-- ===== src/Protocol.antt =====
-- protocol.go: the binary protocol between the clients and the daemon.
pub mod Stream
pub mod Frames
pub mod Request
pub mod Response
pub mod Fields
pub mod Wire
pub mod RoundTrip
pub mod Local
pub mod Shrinks
mod Tests
