-- ===== src/Writeback.antt =====
-- The round trip of requirements: version snapshots, comments and change requests.
pub mod Conflict
pub mod History
pub mod Requests
pub mod Splice
pub mod Versions
pub mod Comments
mod RequestTests
mod SpliceTests
mod Tests
