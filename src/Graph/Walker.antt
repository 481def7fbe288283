-- ===== src/Graph/Walker.antt =====
-- engine/graph/runtime.go: the walker. `Types` has its data, `Commits` the commits that it makes and
-- `Loop` the function `Run`; the other modules prove.
pub mod Types
pub mod Commits
pub mod Loop
pub mod Fuel
pub mod Invariant
pub mod Memory
pub mod Endings
pub mod Pauses
