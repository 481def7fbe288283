-- ===== src/Graph.antt =====
-- Package graph (engine/graph): the nodes of the execution graph and the walker that dispatches them.
pub mod Node
pub mod Executor
pub mod StrictReview
pub mod Reviewer
pub mod Approval
pub mod Replan
pub mod Planner
pub mod Registry
pub mod Walker
