-- ===== src/Unique.antt =====
-- The unique index on the live jobs' (kind, unique_key), under the UPDATEs and the INSERTs.
pub mod Rows
pub mod Steps
pub mod Insertion
pub mod Scheduled
pub mod Claim
pub mod Deletion
pub mod History
