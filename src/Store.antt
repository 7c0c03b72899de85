-- ===== src/Store.antt =====
-- internal/store: the database and the transactions on it.
pub mod Model
pub mod Gates
pub mod Claim
pub mod Complete
pub mod Dag
pub mod Lifecycle
pub mod Journal
pub mod Recovery
pub mod Purge
pub mod Queries
pub mod Transitions
pub mod Enqueue
pub mod Samples
pub mod ChainSamples
mod Examples
mod QueryExamples
mod EnqueueExamples
mod JournalExamples
mod PurgeExamples
