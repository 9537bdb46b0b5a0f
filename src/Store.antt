-- ===== src/Store.antt =====
-- internal/store
pub mod Env
pub mod Exec
pub mod Crypt
pub mod Hash
pub mod Table
pub mod Commits
pub mod Keeps
pub mod Effects
pub mod Methods
pub mod History
pub mod Calls
pub mod Log
pub mod Content
pub mod Integrity
pub mod Served
pub mod Reads
pub mod Moves
pub mod Quiet
pub mod Listing
pub mod Examples
pub mod Runs
pub mod Migrate
pub mod Open
