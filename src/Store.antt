-- ===== src/Store.antt =====
-- The Postgres schema's tables (crates/eddyq-core/migrations) as one database record. The rows are
-- in Rows; Context holds the clock and the functions of libraries that the crate calls.
pub mod Rows
pub mod Context
pub mod Serial
unfoldable pub use Rows.*
pub use Context.*
use eddyq.Prelude.{ℕ, List, []}

-- A transaction is a function on the database, and an error rolls it back.
pub record Db : Type 0 where
  pub jobs : List Job
  -- the BIGSERIAL of eddyq_jobs
  pub next_job : ℕ
  pub groups : List Group
  pub rules : List StoredRule
  pub queues : List NamedQueue
  pub batches : List Batch
  -- the BIGSERIAL of eddyq_batches
  pub next_batch : ℕ
  pub schedules : List Schedule
  pub leases : List Lease
  -- how often `pg_notify('eddyq_job', '')` was sent
  pub notices : ℕ

abbrev pub empty_db : Db
empty_db = record {
  jobs = [];
  next_job = 1;
  groups = [];
  rules = [];
  queues = [];
  batches = [];
  next_batch = 1;
  schedules = [];
  leases = [];
  notices = 0;
}
