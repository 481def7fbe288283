-- ===== src/Hermes/SqliteStore.antt =====
-- hermes/store.go: the task store over SQLite. Tables are lists of rows, and a column that holds JSON
-- holds the value that was written: encoding/json is taken to read back what it wrote. SQL statements
-- are functions on the tables, with the unique and foreign keys that the schema declares.
pub mod Tables
pub mod Mirror
pub mod Reads
pub mod Writes
pub mod Commits
pub mod Resolution
pub mod Listings
pub mod Retry
pub mod Inversion
pub mod Accepted
pub mod Committed
pub mod Agreement
pub mod Touched
pub mod Overlaid
pub mod Refusals
pub mod Failing
pub mod Sweeping
pub mod Updated
pub mod Deciding
pub mod Resolved
