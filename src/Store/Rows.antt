-- ===== src/Store/Rows.antt =====
-- The rows of the tables, and the enums of job.rs, retention.rs, batch.rs and enqueue.rs.
-- Times are milliseconds since the epoch. A JSON value is its text, which the store never reads.
-- Columns of type INTEGER that count are natural numbers: a negative `max_attempts` or
-- `max_stalled_count` acts as 0 does, since both are only compared with counts.
use eddyq.Prelude.{ℕ, ◌-◌, ◌^◌, Bool, true, false, String, Option, List, ℤ}

pub data JobState : Type 0 where
  pending running completed failed scheduled cancelled : JobState

pub JobState-discrete : Discrete JobState
JobState-discrete = hlevel

unfoldable pub state_eq : JobState → JobState → Bool
state_eq pending pending = true
state_eq running running = true
state_eq completed completed = true
state_eq failed failed = true
state_eq scheduled scheduled = true
state_eq cancelled cancelled = true
state_eq _ _ = false

-- JobState::as_str
unfoldable pub as_str : JobState → String
as_str pending = "pending"
as_str running = "running"
as_str completed = "completed"
as_str failed = "failed"
as_str scheduled = "scheduled"
as_str cancelled = "cancelled"

abbrev pub Json : Type 0
Json = String

pub data RetentionRule : Type 0 where
  bool : Bool → RetentionRule
  rule : (age count : Option ℕ) → RetentionRule

-- A row of eddyq_jobs.
pub record Job : Type 0 where
  pub id : ℕ
  pub queue : String
  pub kind : String
  pub payload : Json
  pub state : JobState
  pub priority : ℤ
  pub attempt : ℕ
  pub max_attempts : ℕ
  pub stalled_count : ℕ
  pub max_stalled_count : ℕ
  pub scheduled_at : ℕ
  pub heartbeat_at : Option ℕ
  pub worker_id : Option ℕ
  pub errors : List Json
  pub result : Option Json
  pub unique_key : Option String
  pub group_key : Option String
  pub tags : List String
  pub metadata : Json
  pub batch_id : Option ℕ
  pub created_at : ℕ
  pub finalized_at : Option ℕ

-- A row of eddyq_groups. `tokens` counts in units of 1 / rate_period_ms of a token.
pub record Group : Type 0 where
  pub key : String
  pub running_count : ℕ
  pub max_concurrency : ℕ
  pub paused : Bool
  pub rate_count : Option ℕ
  pub rate_period_ms : Option ℕ
  pub tokens : ℕ
  pub tokens_refilled_at : Option ℕ

-- A row of eddyq_group_rules.
pub record StoredRule : Type 0 where
  pub pattern : String
  pub max_concurrency : Option ℕ
  pub rate_count : Option ℕ
  pub rate_period_ms : Option ℕ
  pub priority : ℤ

-- A row of eddyq_queues.
pub record NamedQueue : Type 0 where
  pub name : String
  pub running_count : ℕ
  pub max_concurrency : ℕ
  pub paused : Bool
  pub default_timeout_ms : Option ℕ

pub record DynEnqueue : Type 0 where
  pub kind : String
  pub payload : Json
  pub max_attempts : ℕ
  pub max_stalled_count : ℕ
  pub priority : ℤ
  pub queue : String
  pub scheduled_at : Option ℕ
  pub unique_key : Option String
  pub group_key : Option String
  pub tags : List String
  pub metadata : Json
  pub batch_id : Option ℕ
  pub remove_on_complete : Option RetentionRule
  pub remove_on_fail : Option RetentionRule

-- A row of eddyq_batches. `is_complete` is `state = 'complete'`, the one other state being 'pending'.
pub record Batch : Type 0 where
  pub id : ℕ
  pub is_complete : Bool
  pub total : ℕ
  pub completed : ℕ
  pub failed : ℕ
  pub cancelled : ℕ
  pub on_complete : Option Json
  pub callback_enqueued_at : Option ℕ
  pub metadata : Json
  pub created_at : ℕ
  pub finalized_at : Option ℕ

-- A row of eddyq_schedules.
pub record Schedule : Type 0 where
  pub name : String
  pub kind : String
  pub payload : Json
  pub cron_expr : Option String
  pub interval_ms : Option ℕ
  pub next_run_at : ℕ
  pub last_run_at : Option ℕ
  pub enabled : Bool
  pub priority : ℤ
  pub max_attempts : ℕ
  pub queue : String

-- A row of eddyq_leader.
pub record Lease : Type 0 where
  pub role : String
  pub worker_id : ℕ
  pub expires_at : ℕ
  pub elected_at : ℕ

abbrev pub i32_max : ℕ
i32_max = 2 ^ 31 - 1

abbrev pub i64_max : ℕ
i64_max = 2 ^ 63 - 1
