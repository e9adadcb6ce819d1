-- ===== src/Runtime/Reports.antt =====
-- What a worker's report does to the row of its job, whichever way the handler ended.
use eddyq.Prelude.{
  ℕ, ◌≡◌, refl, ap, ◌∙◌, arith, Bool, true, false, not, Option, none, some, Memᴰ, leb, ltb,
  Bool-cases, inl, inr, if◌then◌else◌,
}
use eddyq.Sql.{find, update}
use eddyq.Store.{Db, Job, JobState, pending, Json, Env, Result, ok}
use eddyq.Batch.{TerminalOutcome}
use eddyq.Failure.{Directive}
use eddyq.Fetch.Claim.Write.{ClaimedJob}
use eddyq.Fetch.Finish.{
  is_held, retry, fail, settle, settle_released, release, release_found, release_group,
  release_queue, mark_failed,
}
use eddyq.Invariant.{IsCounted, OnOk-apply}
use eddyq.Invariant.Runs.{mark_failed-IsCounted}
use eddyq.Claiming.Rows.{updated}
use eddyq.Settlement.Success.{find_mem, mark_completed-ok}
use eddyq.Runtime.Backoff.{Random, retry_schedule}
use eddyq.Runtime.Outcome.{Outcome, RetryConfig, retry_at, report}

-- When a row that waits for its next attempt is due.
abbrev pub IsDue : Option ℕ → Job → Type 0
IsDue none r = Unit
IsDue (some at) r = r.scheduled_at ≡ at

-- The row that a report leaves.
abbrev pub Left : Job → JobState → Option ℕ → Db → Type 0
Left j state at after =
    ((r : Job) × Memᴰ r after.jobs × (r.id ≡ j.id) × (r.state ≡ state) × IsDue at r)
    × IsCounted after

abbrev Leaves : Job → JobState → Option ℕ → Result Db → Type 0
Leaves j state at m = (after : Db) × (m ≡ ok after) × Left j state at after

fail-Leaves :
    (env : Env) (id worker : ℕ) (entry : Json) (db : Db) (j : Job)
    → IsCounted db
    → find (is_held id worker) db.jobs ≡ some j
    → j.batch_id ≡ none
    → Leaves j JobState.failed none (mark_failed env id worker entry none db)
unfolding mark_failed release release_group release_queue
fail-Leaves env id worker entry db j v held alone =
    let ended : Db = record db { jobs = update (is_held id worker) (fail env.now entry) db.jobs } in
    let commits : mark_failed env id worker entry none db ≡ ok (release j ended) =
      ap (λ o. settle_released env TerminalOutcome.failed o ended) held
      ∙ ap (λ o. settle env o TerminalOutcome.failed (release j ended)) alone in
    let (m, h) = find_mem (is_held id worker) db.jobs j held in
    (
      release j ended,
      commits,
      (
        (
          fail env.now entry j,
          updated (is_held id worker) (fail env.now entry) j db.jobs m h,
          refl,
          refl,
          tt,
        ),
        OnOk-apply IsCounted (mark_failed env id worker entry none db)
            (mark_failed-IsCounted env id worker entry none db v) commits,
      ),
    )

retry-Leaves :
    (env : Env) (id worker at : ℕ) (entry : Json) (db : Db) (j : Job)
    → IsCounted db
    → find (is_held id worker) db.jobs ≡ some j
    → Leaves j pending (some at) (mark_failed env id worker entry (some at) db)
unfolding mark_failed release release_group release_queue
retry-Leaves env id worker at entry db j v held =
    let ended : Db = record db { jobs = update (is_held id worker) (retry at entry) db.jobs } in
    let commits : mark_failed env id worker entry (some at) db ≡ ok (release j ended) =
      ap (λ o. ok (release_found o ended)) held in
    let (m, h) = find_mem (is_held id worker) db.jobs j held in
    (
      release j ended,
      commits,
      (
        (
          retry at entry j,
          updated (is_held id worker) (retry at entry) j db.jobs m h,
          refl,
          refl,
          refl,
        ),
        OnOk-apply IsCounted (mark_failed env id worker entry (some at) db)
            (mark_failed-IsCounted env id worker entry (some at) db v) commits,
      ),
    )

-- The handler asks for no more runs, or the attempts are used up.
abbrev pub ends_attempts : ClaimedJob → Option Directive → Bool
ends_attempts job (some Directive.cancel) = true
ends_attempts job (some (Directive.retry delay_ms)) = false
ends_attempts job none = not (ltb job.attempt job.max_attempts)

-- Where a report takes the job.
abbrev pub next_state : ClaimedJob → Outcome → JobState
next_state job (Outcome.unregistered message) = JobState.failed
next_state job (Outcome.returned value) = JobState.completed
next_state job (Outcome.failed failure) =
    if ends_attempts job failure.directive then JobState.failed else pending
next_state job (Outcome.panicked message) =
    if ends_attempts job none then JobState.failed else pending

module _ (random : Random) (config : RetryConfig) (env : Env) where
  -- When the next attempt is due: as the directive asks, or by the default schedule.
  abbrev pub next_due : ClaimedJob → Outcome → Option ℕ
  next_due job (Outcome.unregistered message) = none
  next_due job (Outcome.returned value) = none
  next_due job (Outcome.failed failure) = retry_at random config env job failure.directive
  next_due job (Outcome.panicked message) = retry_at random config env job none

  either_Leaves :
      (job : ClaimedJob) (d : Option Directive) (entry : Json) (db : Db) (j : Job)
      → IsCounted db
      → find (is_held job.id job.worker_id) db.jobs ≡ some j
      → j.batch_id ≡ none
      → Leaves j
          (if ends_attempts job d then JobState.failed else pending)
          (retry_at random config env job d)
          (mark_failed env job.id job.worker_id entry (retry_at random config env job d) db)
  unfolding retry_at retry_schedule
  either_Leaves job (some Directive.cancel) entry db j v held alone =
      fail-Leaves env job.id job.worker_id entry db j v held alone
  either_Leaves job (some (Directive.retry delay_ms)) entry db j v held alone =
      retry-Leaves env job.id job.worker_id _ entry db j v held
  either_Leaves job none entry db j v held alone =
      elim (Bool-cases (leb job.max_attempts job.attempt)) [
        | inl e ↦
            let last : ltb job.attempt job.max_attempts ≡ false = ground arith in
            rw (e, last) (fail-Leaves env job.id job.worker_id entry db j v held alone)
        | inr e ↦
            let more : ltb job.attempt job.max_attempts ≡ true = ground arith in
            rw (e, more) (retry-Leaves env job.id job.worker_id _ entry db j v held)
      ]

  -- A report by the worker that holds a job of no batch commits, and the job's row is then completed
  -- if the handler returned, failed if it has no registered kind, asked for no retry or has used its
  -- attempts up, and otherwise pending and due when its directive or the default schedule says; the
  -- counters are right after it.
  pub report_lem :
      (job : ClaimedJob) (o : Outcome) (db : Db) (j : Job)
      → IsCounted db
      → find (is_held job.id job.worker_id) db.jobs ≡ some j
      → j.batch_id ≡ none
      → (after : Db) × (report random config env job o db ≡ ok after)
        × Left j (next_state job o) (next_due job o) after
  unfolding report retry_at
  report_lem job (Outcome.unregistered message) db j v held alone =
      fail-Leaves env job.id job.worker_id _ db j v held alone
  report_lem job (Outcome.returned value) db j v held alone =
      let (after, commits, m, counted) =
        mark_completed-ok env job.id job.worker_id _ db j v held alone in
      (after, commits, ((_, m, refl, refl, tt), counted))
  report_lem job (Outcome.failed failure) db j v held alone =
      either_Leaves job failure.directive _ db j v held alone
  report_lem job (Outcome.panicked message) db j v held alone =
      either_Leaves job none _ db j v held alone
