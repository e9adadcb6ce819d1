-- ===== src/Claiming.antt =====
-- What a claim takes: the rows that it accepts, the limits that it keeps to, and the counters.
pub mod Chosen
pub mod Identity
pub mod Counted
pub mod Limits
pub mod Caps
pub mod Rows
