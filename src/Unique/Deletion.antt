-- ===== src/Unique/Deletion.antt =====
-- Deletions keep the unique index.
use eddyq.Prelude.{ℤ, ℕ, refl, ◌==◌, Option, Bool-cases, inl, inr}
use eddyq.Store.{Db, JobState}
use eddyq.Enqueue.Insert.{holds_key}
use eddyq.Fetch.Retention.{
  Retention, cleanup, cleanup_jobs_state, cleanup_batches, forget_batch, clean_jobs,
}
use eddyq.Invariant.Deletion.{forget_none, reaped}
use eddyq.Unique.Rows.{delete-IsUnique}
use eddyq.Unique.Steps.{Kept}

cleanup_jobs-Kept :
    (now : ℕ) (state : JobState) (secs : Option ℕ) (c : Option ℤ) (db : Db)
    → Kept db
    → Kept (cleanup_jobs_state now state secs c db).1
unfolding cleanup_jobs_state
cleanup_jobs-Kept now state secs c db u = delete-IsUnique _ db.jobs u

cleanup_batches-Kept :
    (now : ℕ) (secs : Option ℕ) (c : Option ℤ) (db : Db)
    → Kept db
    → Kept (cleanup_batches now secs c db).1
unfolding cleanup_batches holds_key
cleanup_batches-Kept now secs c db u kind key =
    rw (forget_none (holds_key kind key) (forget_batch (reaped now secs c db)) db.jobs (λ j. refl))
      (u kind key)

pub cleanup-Kept : (now : ℕ) (r : Retention) (db : Db) → Kept db → Kept (cleanup now r db).1
unfolding cleanup
cleanup-Kept now r db u =
    let db1 = (cleanup_jobs_state now JobState.completed r.completed_secs r.completed_count db).1 in
    let db2 = (cleanup_jobs_state now JobState.failed r.failed_secs r.failed_count db1).1 in
    let db3 =
      (cleanup_jobs_state now JobState.cancelled r.cancelled_secs r.cancelled_count db2).1 in
    cleanup_batches-Kept now r.batch_secs r.batch_count db3 (
      cleanup_jobs-Kept now JobState.cancelled r.cancelled_secs r.cancelled_count db2 (
        cleanup_jobs-Kept now JobState.failed r.failed_secs r.failed_count db1
          (cleanup_jobs-Kept now JobState.completed r.completed_secs r.completed_count db u)))

pub clean_jobs-Kept :
    (now : ℕ) (state : JobState) (grace limit : ℕ) (db : Db)
    → Kept db
    → Kept (clean_jobs now state grace limit db).1
unfolding clean_jobs
clean_jobs-Kept now state grace limit db u = elim (Bool-cases (limit == 0)) [
  | inl e ↦ rw e u
  | inr e ↦ rw e (delete-IsUnique _ db.jobs u)
]
