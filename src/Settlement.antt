-- ===== src/Settlement.antt =====
-- What the end of a job does besides its own row: batches, callbacks, and workers that lost a job.
pub mod Grown
pub mod Once
pub mod Last
pub mod Gate
pub mod Swept
pub mod Kept
pub mod Stuck
pub mod Success
