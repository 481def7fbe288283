-- ===== src/Engine.antt =====
-- The policies of engine/: the lifecycle of an execution and of a conversation, the classes of errors,
-- the reviews, and the decisions on recovery, retries, resumption and sessions.
pub mod ChecklistDrift
pub mod Execution
pub mod ErrorClass
pub mod Review
pub mod Recovery
pub mod Resume
pub mod TaskRetry
pub mod ChatContext
pub mod Session
