-- ===== src/Transfer.antt =====
-- transfer/: how a receiver of deltas finds out what it misses, and how the sender gives it again.
pub mod Messages
pub mod Requester
pub mod DataRequests
pub mod Responder
pub mod CountLaws
pub mod CountLiveness
pub mod DataLaws
pub mod ResponderLaws
pub mod CountRound
mod Tests
