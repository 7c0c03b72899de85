-- ===== src/Engine.antt =====
-- internal/engine: the decisions that the engine takes between its transactions.
pub mod Retry
pub mod CronWait
pub mod Requests
pub mod Dag
pub mod State
pub mod Triggers
pub mod Build
pub mod Control
pub mod Enqueue
pub mod Completer
pub mod Execute
pub mod Tick
pub mod Durable
mod Examples
mod RunSamples
mod RunExamples
mod ChainExamples
mod EnqueueExamples
mod DurableExamples
