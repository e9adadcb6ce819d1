-- ===== src/Fetch.antt =====
-- crates/eddyq-core/src/fetch.rs: the claiming of jobs and the ends of their runs.
-- Each function is one transaction. A WHERE that a peer can make false is part of the statement, as
-- in the source, so that any interleaving of transactions is a sequence of these functions.
pub mod Finish
pub mod Sweep
pub mod Retention
pub mod Claim
