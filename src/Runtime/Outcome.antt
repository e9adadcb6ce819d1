-- ===== src/Runtime/Outcome.antt =====
-- How a worker reports a job: one iteration of `worker_loop` of crates/eddyq-core/src/runtime.rs,
-- after the handler has ended. Times are milliseconds.
use eddyq.Prelude.{ℕ, ◌+◌, ◌-◌, ◌^◌, String, Option, none, some, leb, str_eq, if◌then◌else◌}
use eddyq.Store.{Db, Json, Env, Result, i64_max}
use eddyq.Failure.{Directive, HandlerFailure, from_message, as_error_entry}
use eddyq.Fetch.Claim.Write.{ClaimedJob}
use eddyq.Fetch.Finish.{mark_completed, mark_failed}
use eddyq.Runtime.Backoff.{Random, retry_schedule}

-- The columns of QueueConfig that a retry reads.
pub record RetryConfig : Type 0 where
  pub retry_base : ℕ
  pub retry_max : ℕ

-- What became of the handler. An error that is no HandlerFailure has been made one from its text,
-- and so has a timeout.
pub data Outcome : Type 0 where
  unregistered : (message : String) → Outcome
  returned : (value : Json) → Outcome
  failed : (failure : HandlerFailure) → Outcome
  panicked : (message : String) → Outcome

-- serde_json::Value::Null is not stored.
abbrev pub stored : Json → Option Json
stored value = if str_eq value "null" then none else some value

-- now + Duration::milliseconds(delay_ms as i64): a u64 past i64::MAX is negative as an i64.
unfoldable pub delayed : ℕ → ℕ → ℕ
delayed now delay_ms = if leb delay_ms i64_max then now + delay_ms else now - (2 ^ 64 - delay_ms)

module _ (random : Random) (config : RetryConfig) (env : Env) where
  abbrev scheduled : ClaimedJob → Option ℕ
  scheduled job =
      retry_schedule random env job.attempt job.max_attempts config.retry_base config.retry_max

  -- The handler's directive, or else the default schedule.
  unfoldable pub retry_at : ClaimedJob → Option Directive → Option ℕ
  unfolding delayed retry_schedule
  retry_at job (some Directive.cancel) = none
  retry_at job (some (Directive.retry delay_ms)) = some (delayed env.now delay_ms)
  retry_at job none = scheduled job

  abbrev named_failure : String → String → HandlerFailure
  named_failure name message = record (from_message message) { name = some name }

  unfoldable pub report : ClaimedJob → Outcome → Db → Result Db
  unfolding retry_at as_error_entry mark_completed mark_failed
  report job (unregistered message) db =
      mark_failed env job.id job.worker_id
        (as_error_entry env (named_failure "UnknownKind" message)) none db
  report job (returned value) db = mark_completed env job.id job.worker_id (stored value) db
  report job (failed failure) db =
      mark_failed env job.id job.worker_id (as_error_entry env failure)
        (retry_at job failure.directive) db
  report job (panicked message) db =
      mark_failed env job.id job.worker_id (as_error_entry env (named_failure "Panic" message))
        (scheduled job) db
