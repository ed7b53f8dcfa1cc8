-- ===== src/Broker/Relay.antt =====
-- internal/egobrowser/broker.go: the connection to the relay, over which the requests of a binding are
-- sent and answered.
pub mod Envelope
pub mod Session
pub mod Steps
pub mod Ended
pub mod Closed
pub mod Answers
pub mod Forward
pub mod Events
pub mod Released
pub mod Replies
pub mod Cancels
mod Examples
