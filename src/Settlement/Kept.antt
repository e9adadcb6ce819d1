-- ===== src/Settlement/Kept.antt =====
-- The jobs that can still run, under cleanup of crates/eddyq-core/src/fetch.rs.
use eddyq.Prelude.{ℕ, ◌≡◌, refl, sym, ◌∙◌, arith, Bool, true, false, ◌&&◌, Option, List, ◌==◌, ℤ}
use eddyq.Sql.{count}
use eddyq.Store.{Db, Job, Batch, JobState, running, completed, failed, cancelled, state_eq}
use eddyq.Enqueue.Insert.{is_live}
use eddyq.Fetch.Retention.{
  Retention, is_final, reaps, forget_batch, cleanup_jobs_state, cleanup_batches, cleanup,
}
use eddyq.Invariant.{IsCounted}
use eddyq.Invariant.Deletion.{gone, reaps_final, forget_none, reaped, cleanup_jobs_state-IsCounted}

abbrev pub is_live_job : ℕ → Job → Bool
is_live_job id j = j.id == id && is_live j.state

final_dead :
    (state : JobState)
    → is_live state ≡ false
    → (id : ℕ) (j : Job) → is_final state j ≡ true
    → is_live_job id j ≡ false
unfolding is_final state_eq is_live
final_dead state dead id j h = ground arith

kept_by_jobs :
    (state : JobState) (now : ℕ) (secs : Option ℕ) (c : Option ℤ) (db : Db) (id : ℕ)
    → state_eq state running ≡ false
    → is_live state ≡ false
    → IsCounted db
    → count (is_live_job id) (cleanup_jobs_state now state secs c db).1.jobs
      ≡ count (is_live_job id) db.jobs
unfolding cleanup_jobs_state
kept_by_jobs state now secs c db id ended dead v = sym (
    gone state now ended (reaps now state secs c db.jobs) db
      (λ j m e. reaps_final state now secs c db.next_job db.jobs j v.serial m e) (is_live_job id)
      (final_dead state dead id))

forget_live :
    (id : ℕ) (reaped : List Batch) (j : Job)
    → is_live_job id (forget_batch reaped j) ≡ is_live_job id j
forget_live id reaped j = refl

kept_by_batches :
    (now : ℕ) (secs : Option ℕ) (c : Option ℤ) (db : Db) (id : ℕ)
    → count (is_live_job id) (cleanup_batches now secs c db).1.jobs ≡ count (is_live_job id) db.jobs
unfolding cleanup_batches
kept_by_batches now secs c db id =
    forget_none (is_live_job id) (forget_batch (reaped now secs c db)) db.jobs
      (forget_live id (reaped now secs c db))

-- A job that is pending, running or scheduled survives a cleanup, whatever the rules of retention.
pub cleanup-keeps :
    (now : ℕ) (r : Retention) (db : Db) (id : ℕ)
    → IsCounted db
    → count (is_live_job id) (cleanup now r db).1.jobs ≡ count (is_live_job id) db.jobs
unfolding cleanup state_eq is_live
cleanup-keeps now r db id v =
    let db1 = (cleanup_jobs_state now completed r.completed_secs r.completed_count db).1 in
    let db2 = (cleanup_jobs_state now failed r.failed_secs r.failed_count db1).1 in
    let db3 = (cleanup_jobs_state now cancelled r.cancelled_secs r.cancelled_count db2).1 in
    let w =
      cleanup_jobs_state-IsCounted completed now r.completed_secs r.completed_count db refl v in
    let x = cleanup_jobs_state-IsCounted failed now r.failed_secs r.failed_count db1 refl w in
    kept_by_batches now r.batch_secs r.batch_count db3 id
    ∙ (kept_by_jobs cancelled now r.cancelled_secs r.cancelled_count db2 id refl refl x
        ∙ (kept_by_jobs failed now r.failed_secs r.failed_count db1 id refl refl w
            ∙ kept_by_jobs completed now r.completed_secs r.completed_count db id refl refl v))
