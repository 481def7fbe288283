-- ===== src/IssueOps.antt =====
-- Package issueops: the mapping of a plan to the checklist of a GitHub issue, and its closing.
pub mod Checklist
pub mod Scoring
pub mod Mapping
pub mod Completion
pub mod Close
pub mod Body
pub mod Preview
pub mod Sync
pub mod Ticks
pub mod Bodies
pub mod Writing
