-- ===== src/Broker.antt =====
-- pkg/broker: an in-memory broker with a bounded buffer for each subscriber, and the record of the events
-- that found no room.
pub mod State
pub mod Deliver
pub mod Panic
mod Tests
