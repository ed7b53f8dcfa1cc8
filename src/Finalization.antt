-- ===== src/Finalization.antt =====
-- internal/skillmanager: the finalization of a stopped session's skill directory, from the local
-- capture to the Server's decision, and the authority to read or reclaim the retained capture.
pub mod Identity
pub mod Journal
pub mod Receipt
pub mod Acknowledgement
pub mod Lifecycle
pub mod Progress
pub mod Reclamation
mod Examples
