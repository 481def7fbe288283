-- ===== src/Hermes.antt =====
-- Package hermes: the durable state of a planning task and the stores that keep it.
pub mod Status
pub mod Usage
pub mod State
pub mod Snapshot
pub mod Reducer
pub mod MemoryStore
pub mod SqliteStore
pub mod Accumulated
pub mod IssueState
pub mod Parallel
pub mod Failure
