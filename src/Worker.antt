-- ===== src/Worker.antt =====
-- internal/worker: the node's loops, the lease of a task while its work runs, and the journal of
-- managed startups over the task ledger.
pub mod Lease
pub mod Granted
pub mod Held
pub mod Loop
pub mod Json
pub mod StartRecord
pub mod StartEncode
pub mod StartDecode
pub mod StartCodec
pub mod StartForms
pub mod StartJournal
pub mod StartSettle
pub mod StartRecovery
pub mod Chain
pub mod RetireFields
pub mod RetireCodec
pub mod StartSwaps
pub mod StartReads
pub mod StartListed
pub mod Startups
pub mod StartProposals
mod StartLife
mod StartRuns
mod StartKept
mod StartEnds
mod StartRounds
mod StartRecovered
mod Examples
mod StartExamples
