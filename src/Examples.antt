-- ===== src/Examples.antt =====
-- Concrete databases, and the theorems at them.
pub mod Data
pub mod Claims
pub mod Ends
pub mod Plans
pub mod Processes
