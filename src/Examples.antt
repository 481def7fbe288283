-- ===== src/Examples.antt =====
-- Tasks, stores and walks at concrete values, for the theorems' use on them.
pub mod Data
mod Reducing
mod Storing
mod Sqlite
mod Nodes
mod Merging
mod Gates
mod Issues
mod Chats
mod Policies
mod Walking
mod Ticking
