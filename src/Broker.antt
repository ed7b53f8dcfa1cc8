-- ===== src/Broker.antt =====
-- internal/egobrowser/broker.go: the broker between wrappers and browser bindings.
pub mod Texts
pub mod Binding
pub mod State
pub mod Sessions
pub mod Bindings
pub mod Leases
pub mod Permits
pub mod Requests
pub mod Relay
pub mod Run
pub mod Keeps
pub mod Sequence
pub mod SingleUse
pub mod Limit
pub mod Admit
pub mod Revival
pub mod Unrevived
pub mod Revocation
pub mod Capabilities
pub mod Untouched
pub mod Pairs
pub mod Replays
pub mod Grace
pub mod Confined
pub mod Order
mod Examples
