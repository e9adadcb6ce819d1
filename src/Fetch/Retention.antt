-- ===== src/Fetch/Retention.antt =====
-- The deletion of finished rows: Retention, cleanup and clean_jobs of
-- crates/eddyq-core/src/fetch.rs. Rows with one `finalized_at` are ranked in the table's order.
use eddyq.Prelude.{
  ℕ, ◌+◌, ◌*◌, Bool, false, ◌&&◌, not, Option, none, some, List, ltb, leb, min, ◌==◌, length, take,
  drop, map, any_num, any, ◌||◌, if◌then◌else◌, ℤ, clamp,
}
use eddyq.Sql.{select, delete, count, sort}
use eddyq.Store.{Db, Job, Batch, JobState, state_eq, i64_max}
use eddyq.Group.{is_none}

pub record Retention : Type 0 where
  pub completed_secs : Option ℕ
  pub failed_secs : Option ℕ
  pub cancelled_secs : Option ℕ
  pub batch_secs : Option ℕ
  pub completed_count : Option ℤ
  pub failed_count : Option ℤ
  pub cancelled_count : Option ℤ
  pub batch_count : Option ℤ

unfoldable pub is_disabled : Retention → Bool
is_disabled r =
    is_none r.completed_secs
    && is_none r.failed_secs
    && is_none r.cancelled_secs
    && is_none r.batch_secs
    && is_none r.completed_count
    && is_none r.failed_count
    && is_none r.cancelled_count
    && is_none r.batch_count

-- finalized_at IS NOT NULL AND finalized_at < NOW() - secs
unfoldable pub is_older : ℕ → ℕ → Option ℕ → Bool
is_older now secs none = false
is_older now secs (some t) = ltb (t + min secs i64_max * 1000) now

-- ORDER BY finalized_at DESC, of rows that have one.
abbrev pub later : Option ℕ → Option ℕ → Bool
later none b = false
later (some s) none = false
later (some s) (some t) = leb t s

unfoldable pub is_final : JobState → Job → Bool
unfolding state_eq
is_final state j = state_eq j.state state && not (is_none j.finalized_at)

-- The ids of the rows with rn > count, newest first.
unfoldable pub beyond : ℤ → JobState → List Job → List ℕ
unfolding is_final sort
beyond n state jobs =
    map (λ (j : Job). j.id)
      (drop (clamp n)
        (sort (λ (a b : Job). later a.finalized_at b.finalized_at) (select (is_final state) jobs)))

-- What one call deletes in one state.
unfoldable pub reaps : ℕ → JobState → Option ℕ → Option ℤ → List Job → Job → Bool
unfolding beyond is_older
reaps now state none none jobs j = false
reaps now state (some secs) none jobs j = is_final state j && is_older now secs j.finalized_at
reaps now state none (some n) jobs j = any_num j.id (beyond n state jobs)
reaps now state (some secs) (some n) jobs j =
    is_final state j && is_older now secs j.finalized_at || any_num j.id (beyond n state jobs)

-- The number of deleted rows, and the database.
unfoldable pub cleanup_jobs_state : ℕ → JobState → Option ℕ → Option ℤ → Db → ℕ × Db
unfolding reaps
cleanup_jobs_state now state secs n db = (
  count (reaps now state secs n db.jobs) db.jobs,
  record db { jobs = delete (reaps now state secs n db.jobs) db.jobs },
)

unfoldable pub is_closed : Batch → Bool
is_closed b = b.is_complete && not (is_none b.finalized_at)

unfoldable pub beyond_batches : ℤ → List Batch → List ℕ
unfolding is_closed sort
beyond_batches n batches =
    map (λ (b : Batch). b.id)
      (drop (clamp n)
        (sort (λ (a b : Batch). later a.finalized_at b.finalized_at) (select is_closed batches)))

unfoldable pub reaps_batch : ℕ → Option ℕ → Option ℤ → List Batch → Batch → Bool
unfolding beyond_batches is_older
reaps_batch now none none batches b = false
reaps_batch now (some secs) none batches b = is_closed b && is_older now secs b.finalized_at
reaps_batch now none (some n) batches b = any_num b.id (beyond_batches n batches)
reaps_batch now (some secs) (some n) batches b =
    is_closed b && is_older now secs b.finalized_at || any_num b.id (beyond_batches n batches)

-- ON DELETE SET NULL of the foreign key.
abbrev pub forget_batch : List Batch → Job → Job
forget_batch gone j = record j {
  batch_id = elim j.batch_id [
    | none ↦ none
    | some b ↦ if any (λ (r : Batch). r.id == b) gone then none else some b
  ];
}

unfoldable pub cleanup_batches : ℕ → Option ℕ → Option ℤ → Db → ℕ × Db
unfolding reaps_batch
cleanup_batches now secs n db =
    let gone = select (reaps_batch now secs n db.batches) db.batches in
    (
      length gone,
      record db {
        batches = delete (reaps_batch now secs n db.batches) db.batches;
        jobs = map (forget_batch gone) db.jobs;
      },
    )

-- Each state's DELETE is a statement of its own.
unfoldable pub cleanup : ℕ → Retention → Db → (ℕ × ℕ × ℕ × ℕ) × Db
unfolding cleanup_jobs_state cleanup_batches
cleanup now r db =
    let (c, db1) =
      cleanup_jobs_state now JobState.completed r.completed_secs r.completed_count db in
    let (f, db2) = cleanup_jobs_state now JobState.failed r.failed_secs r.failed_count db1 in
    let (x, db3) =
      cleanup_jobs_state now JobState.cancelled r.cancelled_secs r.cancelled_count db2 in
    let (b, db4) = cleanup_batches now r.batch_secs r.batch_count db3 in ((c, f, x, b), db4)

-- CleanState of crates/eddyq-core/src/backend/mod.rs: the states that callers of clean_jobs name.
pub data CleanState : Type 0 where
  completed failed cancelled : CleanState

unfoldable pub clean_state : CleanState → JobState
clean_state CleanState.completed = JobState.completed
clean_state CleanState.failed = JobState.failed
clean_state CleanState.cancelled = JobState.cancelled

-- ORDER BY finalized_at ASC LIMIT
unfoldable pub victims : ℕ → JobState → ℕ → ℕ → List Job → List ℕ
unfolding is_older is_final sort
victims now state grace_secs limit jobs =
    map (λ (j : Job). j.id)
      (take limit (
        sort (λ (a b : Job). later b.finalized_at a.finalized_at)
          (select (λ j. is_final state j && is_older now grace_secs j.finalized_at) jobs)))

unfoldable pub clean_jobs : ℕ → JobState → ℕ → ℕ → Db → ℕ × Db
unfolding victims
clean_jobs now state grace_secs limit db =
    let ids = victims now state grace_secs limit db.jobs in
    if limit == 0 then (0, db) else (
      count (λ (j : Job). any_num j.id ids) db.jobs,
      record db { jobs = delete (λ (j : Job). any_num j.id ids) db.jobs },
    )
